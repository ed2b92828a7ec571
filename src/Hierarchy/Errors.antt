-- ===== src/Hierarchy/Errors.antt =====
-- When `assignManager` succeeds and when it throws.
use iam_access_control_servi.Prelude.{
  ℕ, String, ◌≡◌, ◌≢◌, inl, inr, refl, sym, subst, ◌∙◌, Bool, true, false, some, [], ◌∷◌, arith,
  str_eq, eq_iff, In, Option-cases, if◌then◌else◌,
}
use iam_access_control_servi.Outcome.{ok, throw, bad_request}
use iam_access_control_servi.Domain.Models.{ClosureRow}
use iam_access_control_servi.Hierarchy.{
  closure_row, where_pair, add_node, detach, new_rows, set_manager, attach, check_cycle,
  assign_manager,
}
use iam_access_control_servi.Hierarchy.Store.{HierarchyDb, HasUser, HasEnds, HasRefs}
use iam_access_control_servi.Hierarchy.Forest.{Managers, up, reassign}
use iam_access_control_servi.Hierarchy.Nodes.{IsNode, Represents}
use iam_access_control_servi.Hierarchy.Joins.{where_pair_iff}
use iam_access_control_servi.Hierarchy.NewRows.{IsJoined, new_rows_tenant, new_rows_sound}
use iam_access_control_servi.Hierarchy.AddNode.{fresh-IsNode, add_node-Represents}
use iam_access_control_servi.Hierarchy.Assign.{add_node_keeps, some_rows, assign_manager-Represents}

module _ {Db : Type 0} (prisma : HierarchyDb Db) (t : String) where
  add_node_ok :
      (u : String) (db : Db)
      → In t (prisma.tenants db)
      → HasUser u (prisma.users db)
      → (db' : Db) × (add_node prisma t u db ≡ ok db')
  unfolding add_node
  add_node_ok u db own known = prisma.create_many_ok (closure_row t u u 0 ∷ []) db (λ r h. elim h [
    | inl e ↦ subst (λ s. HasRefs s (prisma.tenants db) (prisma.users db)) e (own, (known, known))
    | inr none_left ↦ absurd none_left
  ])

  add_node_users :
      (u : String) (db db' : Db)
      → add_node prisma t u db ≡ ok db'
      → prisma.users db' ≡ prisma.users db
  unfolding add_node
  add_node_users u db db' e = prisma.create_many_users (closure_row t u u 0 ∷ []) db db' e

  add_node_tenants :
      (u : String) (db db' : Db)
      → add_node prisma t u db ≡ ok db'
      → prisma.tenants db' ≡ prisma.tenants db
  unfolding add_node
  add_node_tenants u db db' e = prisma.create_many_tenants (closure_row t u u 0 ∷ []) db db' e

  kept_tenants :
      (b : Bool) (p : ClosureRow → Bool) (db : Db)
      → prisma.tenants (if b then db else prisma.delete_many p db) ≡ prisma.tenants db
  kept_tenants true p db = refl
  kept_tenants false p db = prisma.delete_many_tenants p db

  detach_tenants :
      (u : String) (db : Db) → prisma.tenants (detach prisma t u db) ≡ prisma.tenants db
  unfolding detach
  detach_tenants u db = kept_tenants _ _ db

  kept_users :
      (b : Bool) (p : ClosureRow → Bool) (db : Db)
      → prisma.users (if b then db else prisma.delete_many p db) ≡ prisma.users db
  kept_users true p db = refl
  kept_users false p db = prisma.delete_many_users p db

  detach_users : (u : String) (db : Db) → prisma.users (detach prisma t u db) ≡ prisma.users db
  unfolding detach
  detach_users u db = kept_users _ _ db

  module _ (u m : String) {db : Db} {mgr : Managers} (rep : Represents prisma t db mgr)
      (node_u : IsNode prisma t db u) (node_m : IsNode prisma t db m)
      (own : In t (prisma.tenants db)) where
    joined_ends :
        (a d : String) (k : ℕ)
        → IsJoined prisma t u m rep node_m a d k
        → HasEnds (closure_row t a d k) (prisma.users db)
    joined_ends a d k j =
        let upper =
          prisma.row_ends db (closure_row t a m j.ka) (rep.complete a m j.ka node_m j.above) in
        let lower =
          prisma.row_ends db (closure_row t u d j.kd) (rep.complete u d j.kd j.node j.below) in
        (upper.0, lower.1)

    attach_ok : (db' : Db) × (attach prisma t u m db ≡ ok db')
    unfolding attach
    attach_ok =
        let (joined, created) =
          prisma.create_many_ok (new_rows prisma t u m db) (detach prisma t u db) (λ r h.
            let shape = new_rows_tenant prisma t u m rep node_m r h in
            let a = r.ancestor_user_id in
            let d = r.descendant_user_id in
            let here = subst (λ s. In s (new_rows prisma t u m db)) shape h in
            let ends =
              joined_ends a d r.depth (new_rows_sound prisma t u m rep node_m a d r.depth here) in
            (
              subst (λ (x : ClosureRow). In x.tenant_id (prisma.tenants (detach prisma t u db)))
                  (sym shape) (subst (In t) (sym (detach_tenants u db)) own),
              subst (HasEnds r) (sym (detach_users u db)) ends,
            )) in
        (
          set_manager prisma t u m joined,
          rw (some_rows prisma t u m rep node_u node_m, created) refl,
        )

    check_cycle_ok :
        ((k : ℕ) → up mgr k m ≢ some u) → (db' : Db) × (check_cycle prisma t u m db ≡ ok db')
    unfolding check_cycle
    check_cycle_ok no_cycle = elim (Option-cases (prisma.find_first (where_pair t u m) db)) [
      | inl missing ↦ let (db', attached) = attach_ok in (db', rw (missing, check_cycle) attached)
      | inr (r, found) ↦
          let (row, test) = prisma.find_first_some (where_pair t u m) db r found in
          let shaped = subst (λ s. In s (prisma.rows db)) ((where_pair_iff t u m r).0 test) row in
          absurd (no_cycle r.depth (rep.sound u m r.depth shaped))
    ]

    check_cycle_throws :
        (k : ℕ)
        → up mgr k m ≡ some u
        → check_cycle prisma t u m db
          ≡ throw (bad_request "Assigning this manager would create a cycle")
    unfolding check_cycle
    check_cycle_throws k way = elim (Option-cases (prisma.find_first (where_pair t u m) db)) [
      | inr (r, found) ↦ rw (found, check_cycle) refl
      | inl missing ↦
          let r = closure_row t u m k in
          cc (
            prisma.find_first_none (where_pair t u m) db r missing (rep.complete u m k node_m way),
            (where_pair_iff t u m r).1 refl,
          )
    ]

  module _ (u m : String) (db : Db) (mgr : Managers) (rep : Represents prisma t db mgr)
      (other : u ≢ m) (known_t : In t (prisma.tenants db)) (known_u : HasUser u (prisma.users db))
      (known_m : HasUser m (prisma.users db)) where
    differs : str_eq u m ≡ false
    differs = ground (arith, eq_iff u m)

    -- After both nodes are there, `assignManager` is its cycle check.
    prepared :
        (second : Db) × Represents prisma t second mgr
        × IsNode prisma t second u
        × IsNode prisma t second m
        × In t (prisma.tenants second)
        × (assign_manager prisma t u m db ≡ check_cycle prisma t u m second)
    unfolding assign_manager
    prepared =
        let (first, added_u) = add_node_ok u db known_t known_u in
        let rep_1 = add_node-Represents prisma t u rep added_u in
        let (second, added_m) =
          add_node_ok m first (subst (In t) (sym (add_node_tenants u db first added_u)) known_t)
            (subst (HasUser m) (sym (add_node_users u db first added_u)) known_m) in
        (
          second,
          add_node-Represents prisma t m rep_1 added_m,
          add_node_keeps prisma t first second m added_m u (fresh-IsNode prisma t u rep added_u),
          fresh-IsNode prisma t m rep_1 added_m,
          subst (In t) (sym (add_node_tenants m first second added_m))
              (subst (In t) (sym (add_node_tenants u db first added_u)) known_t),
          rw (differs, added_u, added_m) refl,
        )

    -- In a known tenant and between two known users, a new edge that makes no cycle is accepted, and the new table
    -- represents the hierarchy with that edge.
    pub assign_manager_total :
        ((k : ℕ) → up mgr k m ≢ some u)
        → (db' : Db) × (assign_manager prisma t u m db ≡ ok db')
          × Represents prisma t db' (reassign u m mgr)
    assign_manager_total no_cycle =
        let (second, rep_2, node_u, node_m, own, e) = prepared in
        let (db', checked) = check_cycle_ok u m rep_2 node_u node_m own no_cycle in
        (db', e ∙ checked, (assign_manager-Represents prisma t u m db db' mgr rep (e ∙ checked)).0)

    -- In a known tenant and between two different known users, an edge to a manager below the user
    -- is refused, with the message of the cycle check.
    pub assign_manager_cycle :
        (k : ℕ)
        → up mgr k m ≡ some u
        → assign_manager prisma t u m db
          ≡ throw (bad_request "Assigning this manager would create a cycle")
    assign_manager_cycle k way =
        let (second, rep_2, node_u, node_m, own, e) = prepared in
        e ∙ check_cycle_throws u m rep_2 node_u node_m own k way
