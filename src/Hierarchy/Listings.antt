-- ===== src/Hierarchy/Listings.antt =====
-- src/hierarchy: `getAncestors`, `getDescendants` and the query `organizationHierarchy`, over the
-- closure table read in the order of its depths.
use iam_access_control_servi.Prelude.{
  ℕ, ◌≤◌, ◌<◌, String, ◌≡◌, ◌↔◌, refl, ap, sym, subst, ◌∙◌, Bool, true, some, List, [], ◌∷◌, ◌&&◌,
  map, leb, arith, In, In-map, eq_iff,
}
use iam_access_control_servi.Domain.Models.{ClosureRow}
use iam_access_control_servi.Hierarchy.{closure_row, where_ancestor, where_descendant}
use iam_access_control_servi.Hierarchy.Store.{HierarchyDb}
use iam_access_control_servi.Hierarchy.Forest.{Managers, up}
use iam_access_control_servi.Hierarchy.Nodes.{Represents}
use iam_access_control_servi.Hierarchy.Relations.{proper_row}

-- `HierarchyEdge`
pub record HierarchyEdge : Type 0 where
  pub user_id : String
  pub depth : ℕ

pub record OrganizationHierarchy : Type 0 where
  pub user_id : String
  pub ancestors : List HierarchyEdge
  pub descendants : List HierarchyEdge

-- Sorted by a key.
abbrev pub IsAscending : {T : Type 0} → (T → ℕ) → List T → Type 0
IsAscending key [] = Unit
IsAscending key (x ∷ xs) = ((y : _) → In y xs → key x ≤ key y) × IsAscending key xs

-- `findMany` with `orderBy: { depth: 'asc' }`
pub record DepthOrder {Db : Type 0} (prisma : HierarchyDb Db) : Type 0 where
  pub find_by_depth : (ClosureRow → Bool) → Db → List ClosureRow
  pub find_by_depth_iff :
      (p : ClosureRow → Bool) (db : Db) (r : ClosureRow)
      → In r (find_by_depth p db) ↔ (In r (prisma.rows db) × (p r ≡ true))
  pub find_by_depth_order :
      (p : ClosureRow → Bool) (db : Db)
      → IsAscending (λ (r : ClosureRow). r.depth) (find_by_depth p db)

abbrev pub where_above : String → String → ClosureRow → Bool
where_above tenant_id user_id r = where_descendant tenant_id user_id r && leb 1 r.depth

abbrev pub where_below : String → String → ClosureRow → Bool
where_below tenant_id user_id r = where_ancestor tenant_id user_id r && leb 1 r.depth

abbrev pub ancestor_edge : ClosureRow → HierarchyEdge
ancestor_edge r = record { user_id = r.ancestor_user_id; depth = r.depth }

abbrev pub descendant_edge : ClosureRow → HierarchyEdge
descendant_edge r = record { user_id = r.descendant_user_id; depth = r.depth }

module _ {Db : Type 0} (prisma : HierarchyDb Db) (order : DepthOrder prisma) where
  unfoldable pub get_ancestors : String → String → Db → List HierarchyEdge
  get_ancestors tenant_id user_id db =
      map ancestor_edge (order.find_by_depth (where_above tenant_id user_id) db)

  unfoldable pub get_descendants : String → String → Db → List HierarchyEdge
  get_descendants tenant_id user_id db =
      map descendant_edge (order.find_by_depth (where_below tenant_id user_id) db)

  -- The resolver's `organizationHierarchy`, for the tenant of the principal.
  unfoldable pub organization_hierarchy : String → String → Db → OrganizationHierarchy
  unfolding get_ancestors get_descendants
  organization_hierarchy tenant_id user_id db = record {
    user_id = user_id;
    ancestors = get_ancestors tenant_id user_id db;
    descendants = get_descendants tenant_id user_id db;
  }

-- An order of rows is an order of their edges.
map-IsAscending :
    (f : ClosureRow → HierarchyEdge)
    → ((r : ClosureRow) → (f r).depth ≡ r.depth)
    → (rs : List ClosureRow) → IsAscending (λ (r : ClosureRow). r.depth) rs
    → IsAscending (λ (e : HierarchyEdge). e.depth) (map f rs)
map-IsAscending f same [] h = tt
map-IsAscending f same (r ∷ rs) (first, rest) = (
  λ e at.
      let (s, at_s, is) = (In-map f e rs).0 at in
      let below = first s at_s in
      let eq = sym (same s) ∙ ap (λ (x : HierarchyEdge). x.depth) is in
      omega (arith, below, eq, same r),
  map-IsAscending f same rs rest,
)

-- What the query tells of a user: those above with their distance, and those below with theirs,
-- each list in the order of the distances.
pub record IsListing (mgr : Managers) (user_id : String) (shown : OrganizationHierarchy)
    : Type 0 where
  pub above :
      (e : HierarchyEdge)
      → In e shown.ancestors ↔ ((0 < e.depth) × (up mgr e.depth user_id ≡ some e.user_id))
  pub below :
      (e : HierarchyEdge)
      → In e shown.descendants ↔ ((0 < e.depth) × (up mgr e.depth e.user_id ≡ some user_id))
  pub ancestors_order : IsAscending (λ (e : HierarchyEdge). e.depth) shown.ancestors
  pub descendants_order : IsAscending (λ (e : HierarchyEdge). e.depth) shown.descendants

where_above_iff :
    (t u : String) (r : ClosureRow)
    → (where_above t u r ≡ true)
      ↔ ((r ≡ closure_row t r.ancestor_user_id u r.depth) × (0 < r.depth))
where_above_iff t u r = ground (arith, eq_iff r.tenant_id t, eq_iff r.descendant_user_id u)

where_below_iff :
    (t u : String) (r : ClosureRow)
    → (where_below t u r ≡ true)
      ↔ ((r ≡ closure_row t u r.descendant_user_id r.depth) × (0 < r.depth))
where_below_iff t u r = ground (arith, eq_iff r.tenant_id t, eq_iff r.ancestor_user_id u)

module _ {Db : Type 0} (prisma : HierarchyDb Db) (order : DepthOrder prisma) (t : String) {db : Db}
    {mgr : Managers} (rep : Represents prisma t db mgr) where
  -- The edges of the rows that a test lets through.
  edge_iff :
      (p : ClosureRow → Bool) (f : ClosureRow → HierarchyEdge) (e : HierarchyEdge)
      → In e (map f (order.find_by_depth p db))
        ↔ ((r : ClosureRow) × (In r (prisma.rows db) × (p r ≡ true)) × (f r ≡ e))
  edge_iff p f e =
      let (to, from) = In-map f e (order.find_by_depth p db) in
      (
        λ h. let (r, at, is) = to h in (r, (order.find_by_depth_iff p db r).0 at, is),
        λ (r, row, is). from (r, (order.find_by_depth_iff p db r).1 row, is),
      )

  above_iff :
      (u : String) (e : HierarchyEdge)
      → In e (get_ancestors prisma order t u db)
        ↔ ((0 < e.depth) × (up mgr e.depth u ≡ some e.user_id))
  unfolding get_ancestors
  above_iff u e =
      let (to, from) = edge_iff (where_above t u) ancestor_edge e in
      (
        λ h.
            let (r, (row, passes), is) = to h in
            let (shape, pos) = (where_above_iff t u r).0 passes in
            let way =
              rep.sound r.ancestor_user_id u r.depth
                (subst (λ s. In s (prisma.rows db)) shape row) in
            subst (λ (x : HierarchyEdge). (0 < x.depth) × (up mgr x.depth u ≡ some x.user_id)) is
              (pos, way),
        λ (pos, way).
            let r = closure_row t e.user_id u e.depth in
            from (
              r,
              (
                proper_row prisma t rep e.user_id u e.depth pos way,
                (where_above_iff t u r).1 (refl, pos),
              ),
              refl,
            ),
      )

  below_iff :
      (u : String) (e : HierarchyEdge)
      → In e (get_descendants prisma order t u db)
        ↔ ((0 < e.depth) × (up mgr e.depth e.user_id ≡ some u))
  unfolding get_descendants
  below_iff u e =
      let (to, from) = edge_iff (where_below t u) descendant_edge e in
      (
        λ h.
            let (r, (row, passes), is) = to h in
            let (shape, pos) = (where_below_iff t u r).0 passes in
            let way =
              rep.sound u r.descendant_user_id r.depth
                (subst (λ s. In s (prisma.rows db)) shape row) in
            subst (λ (x : HierarchyEdge). (0 < x.depth) × (up mgr x.depth x.user_id ≡ some u)) is
              (pos, way),
        λ (pos, way).
            let r = closure_row t u e.user_id e.depth in
            from (
              r,
              (
                proper_row prisma t rep u e.user_id e.depth pos way,
                (where_below_iff t u r).1 (refl, pos),
              ),
              refl,
            ),
      )

  -- On a table that represents a hierarchy, `organizationHierarchy` shows exactly those properly
  -- above and below the user, with their distances, in the order of the distances.
  pub organization_hierarchy-IsListing :
      (u : String) → IsListing mgr u (organization_hierarchy prisma order t u db)
  unfolding organization_hierarchy get_ancestors get_descendants
  organization_hierarchy-IsListing u = record {
    above = above_iff u;
    below = below_iff u;
    ancestors_order =
        map-IsAscending ancestor_edge (λ r. refl) _
          (order.find_by_depth_order (where_above t u) db);
    descendants_order =
        map-IsAscending descendant_edge (λ r. refl) _
          (order.find_by_depth_order (where_below t u) db);
  }
