-- ===== src/Hierarchy.antt =====
-- src/hierarchy/hierarchy.service.ts: the closure table of the organization hierarchy. The
-- database is reached through the interface of `Hierarchy/Store`.
pub mod Store
pub mod Forest
pub mod Nodes
pub mod Joins
pub mod Reparent
pub mod NewRows
pub mod AddNode
pub mod Attach
pub mod Assign
pub mod Errors
pub mod Relations
pub mod Listings
pub mod Memory
use iam_access_control_servi.Prelude.{
  ℕ, ◌+◌, String, Bool, true, false, not, ◌&&◌, Option, none, some, List, [], ◌∷◌, ◌++◌, map, leb,
  nat_eq, includes, is_empty, str_eq, is_truthy, text_instance, if◌then◌else◌,
}
use iam_access_control_servi.Outcome.{Outcome, ok, throw, bad_request, ◌>>=◌}
use iam_access_control_servi.Domain.Enums.{RelationshipType}
use iam_access_control_servi.Domain.Models.{User, ClosureRow}
use iam_access_control_servi.Hierarchy.Store.{HierarchyDb}

abbrev pub closure_row : String → String → String → ℕ → ClosureRow
closure_row tenant_id ancestor descendant depth = record {
  tenant_id = tenant_id;
  ancestor_user_id = ancestor;
  descendant_user_id = descendant;
  depth = depth;
}

-- The `where` objects of the queries.
abbrev pub where_ancestor : String → String → ClosureRow → Bool
where_ancestor tenant_id ancestor r =
    str_eq r.tenant_id tenant_id && str_eq r.ancestor_user_id ancestor

abbrev pub where_descendant : String → String → ClosureRow → Bool
where_descendant tenant_id descendant r =
    str_eq r.tenant_id tenant_id && str_eq r.descendant_user_id descendant

abbrev pub where_pair : String → String → String → ClosureRow → Bool
where_pair tenant_id ancestor descendant r =
    where_ancestor tenant_id ancestor r && str_eq r.descendant_user_id descendant

-- `{ ..., depth: { gte: 1 } }`
abbrev pub where_proper : String → String → String → ClosureRow → Bool
where_proper tenant_id ancestor descendant r =
    where_pair tenant_id ancestor descendant r && leb 1 r.depth

-- `{ ..., depth: 1 }`
abbrev pub where_direct : String → String → String → ClosureRow → Bool
where_direct tenant_id ancestor descendant r =
    where_pair tenant_id ancestor descendant r && nat_eq r.depth 1

-- `{ tenantId, descendantUserId: userId, NOT: { ancestorUserId: userId } }`
abbrev pub where_old_ancestor : String → String → ClosureRow → Bool
where_old_ancestor tenant_id user_id r =
    where_descendant tenant_id user_id r && not (str_eq r.ancestor_user_id user_id)

-- `{ tenantId, descendantUserId: { in: ... }, ancestorUserId: { in: ... } }`
abbrev pub where_detached : String → List String → List String → ClosureRow → Bool
where_detached tenant_id subtree_ids old_ancestor_ids r =
    str_eq r.tenant_id tenant_id
    && includes subtree_ids r.descendant_user_id
    && includes old_ancestor_ids r.ancestor_user_id

-- `{ id: userId, tenantId }`
abbrev pub where_user : String → String → User → Bool
where_user tenant_id user_id u = str_eq u.id user_id && str_eq u.tenant_id tenant_id

-- The inner and the outer loop of the cross-join.
unfoldable pub join_row : String → ClosureRow → List ClosureRow → List ClosureRow
join_row tenant_id anc [] = []
join_row tenant_id anc (desc ∷ subtree) =
    closure_row tenant_id anc.ancestor_user_id desc.descendant_user_id (anc.depth + desc.depth + 1)
    ∷ join_row tenant_id anc subtree

unfoldable pub cross_join : String → List ClosureRow → List ClosureRow → List ClosureRow
unfolding join_row
cross_join tenant_id [] subtree = []
cross_join tenant_id (anc ∷ super_tree) subtree =
    join_row tenant_id anc subtree ++ cross_join tenant_id super_tree subtree

-- `!!row`
abbrev pub is_found : Option ClosureRow → Bool
is_found none = false
is_found (some r) = true

-- `subjMgr && targetMgr && subjMgr === targetMgr`
abbrev pub same_manager : Option String → Option String → Bool
same_manager none b = false
same_manager (some a) none = false
same_manager (some a) (some b) = is_truthy (some a) && is_truthy (some b) && str_eq a b

module _ {Db : Type 0} (prisma : HierarchyDb Db) where
  open prisma use {find_first, find_many, create_many, delete_many, update_manager}

  -- `addNode`
  unfoldable pub add_node : String → String → Db → Outcome Db
  add_node tenant_id user_id tx = create_many (closure_row tenant_id user_id user_id 0 ∷ []) tx

  -- The detachment of the subtree from its old ancestors.
  unfoldable pub detach : String → String → Db → Db
  detach tenant_id user_id tx =
      let subtree_ids =
        map (λ (r : ClosureRow). r.descendant_user_id)
          (find_many (where_ancestor tenant_id user_id) tx) in
      let old_ancestor_ids =
        map (λ (r : ClosureRow). r.ancestor_user_id)
          (find_many (where_old_ancestor tenant_id user_id) tx) in
      if is_empty old_ancestor_ids
      then tx
      else delete_many (where_detached tenant_id subtree_ids old_ancestor_ids) tx

  -- The rows of the cross-join, read before the detachment.
  unfoldable pub new_rows : String → String → String → Db → List ClosureRow
  unfolding cross_join
  new_rows tenant_id user_id manager_id tx =
      cross_join tenant_id (find_many (where_descendant tenant_id manager_id) tx)
        (find_many (where_ancestor tenant_id user_id) tx)

  insert_rows : List ClosureRow → Db → Outcome Db
  insert_rows rows tx = if is_empty rows then ok tx else create_many rows tx

  set_manager : String → String → String → Db → Db
  set_manager tenant_id user_id manager_id tx =
      update_manager (where_user tenant_id user_id) manager_id tx

  -- The transaction's body after the cycle check.
  unfoldable pub attach : String → String → String → Db → Outcome Db
  unfolding detach new_rows insert_rows set_manager
  attach tenant_id user_id manager_id tx = do
    joined ← insert_rows (new_rows tenant_id user_id manager_id tx) (detach tenant_id user_id tx)
    ok (set_manager tenant_id user_id manager_id joined)

  check_cycle : String → String → String → Db → Outcome Db
  unfolding attach
  check_cycle tenant_id user_id manager_id tx =
      elim (find_first (where_pair tenant_id user_id manager_id) tx) [
        | some would_cycle ↦ throw (bad_request "Assigning this manager would create a cycle")
        | none ↦ attach tenant_id user_id manager_id tx
      ]

  -- `assignManager`: the body runs in one transaction, so that a throw leaves the database as it
  -- was.
  unfoldable pub assign_manager : String → String → String → Db → Outcome Db
  unfolding add_node check_cycle
  assign_manager tenant_id user_id manager_id db =
      if str_eq user_id manager_id
      then throw (bad_request "A user cannot be their own manager")
      else do
        first ← add_node tenant_id user_id db
        second ← add_node tenant_id manager_id first
        check_cycle tenant_id user_id manager_id second

  unfoldable pub is_direct_manager : String → String → String → Db → Bool
  is_direct_manager tenant_id subject_id target_id db =
      is_found (find_first (where_direct tenant_id subject_id target_id) db)

  unfoldable pub is_ancestor : String → String → String → Db → Bool
  is_ancestor tenant_id subject_id target_id db =
      is_found (find_first (where_proper tenant_id subject_id target_id) db)

  -- `directManagerId`
  unfoldable pub direct_manager_id : String → String → Db → Option String
  direct_manager_id tenant_id user_id db =
      elim (find_first (λ r. where_descendant tenant_id user_id r && nat_eq r.depth 1) db) [
        | none ↦ none
        | some r ↦ some r.ancestor_user_id
      ]

  unfoldable pub get_relationship : String → String → String → Db → RelationshipType
  get_relationship tenant_id subject_id target_id db =
      if str_eq subject_id target_id
      then RelationshipType.self
      else elim (find_first (where_proper tenant_id subject_id target_id) db) [
        | some direct_row ↦
            if nat_eq direct_row.depth 1
            then RelationshipType.direct_manager
            else RelationshipType.ancestor
        | none ↦
            if same_manager (direct_manager_id tenant_id subject_id db)
              (direct_manager_id tenant_id target_id db)
            then RelationshipType.sibling
            else RelationshipType.no_relation
      ]
