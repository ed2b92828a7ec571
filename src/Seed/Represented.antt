-- ===== src/Seed/Represented.antt =====
-- The seeded closure table is one that the hierarchy service can work with.
use iam_access_control_servi.Prelude.{
  ◌<◌, ◌≢◌, ◌&&◌, not, is_blank, includes, includes_iff, text_instance, ltb, map, In-map,
}
use iam_access_control_servi.Prelude.{
  ℕ, String, ◌≡◌, sym, ap, subst, ◌∙◌, Bool, true, none, some, some-inj, List, [], ◌∷◌, In, inl,
  inr, str_eq, eq_iff, if◌then◌else◌, Option-cases, Bool-cases, arith,
}
use iam_access_control_servi.Domain.Models.{ClosureRow}
use iam_access_control_servi.Hierarchy.{closure_row}
use iam_access_control_servi.Hierarchy.Store.{HierarchyDb}
use iam_access_control_servi.Hierarchy.Forest.{up}
use iam_access_control_servi.Hierarchy.Nodes.{HasRow, IsNode, Represents}
use iam_access_control_servi.Seed.Closure.{SeedNode, build_closure_rows, entry_of, manager_of}
use iam_access_control_servi.Seed.Rows.{IsRanked, build_closure_rows_iff}

-- The entry of an id is one of the list with that id.
entry_of-In :
    (users : List SeedNode) (x : String) (u : SeedNode)
    → entry_of users x ≡ some u
    → In u users × (u.id ≡ x)
unfolding entry_of
entry_of-In [] x u e = cc
entry_of-In (v ∷ users) x u e = elim (Option-cases (entry_of users x)) [
  | inr (w, later) ↦
      let same : w ≡ u = some-inj (rw (later, entry_of) at e) in
      let (at, is) = entry_of-In users x w later in
      (inr (subst (λ y. In y users) same at), subst (λ (y : SeedNode). y.id ≡ x) same is)
  | inl missing ↦
      let tested : (if str_eq v.id x then some v else none) ≡ some u =
        rw (missing, entry_of) at e in
      elim (Bool-cases (str_eq v.id x)) [
        | inl here ↦
            let same : v ≡ u = some-inj (rw here at tested) in
            (inl same, subst (λ (y : SeedNode). y.id ≡ x) same ((eq_iff v.id x).0 here))
        | inr other ↦ cc (rw other at tested)
      ]
]

-- Every manager of the list is in it.
abbrev pub HasManagers : List SeedNode → Type 0
HasManagers users =
    (d m : String) → manager_of users d ≡ some m → (x : SeedNode) × In x users × (x.id ≡ m)

listed :
    (users : List SeedNode) (d m : String)
    → manager_of users d ≡ some m
    → (x : SeedNode) × In x users × (x.id ≡ d)
unfolding manager_of
listed users d m edge = elim (Option-cases (entry_of users d)) [
  | inr (u, found) ↦ let (at, is) = entry_of-In users d u found in (u, at, is)
  | inl missing ↦ cc (rw (missing, manager_of) at edge)
]

module _ {Db : Type 0} (prisma : HierarchyDb Db) (t : String) (users : List SeedNode) where
  -- The table has the seed's rows, and no others of the tenant.
  pub record IsSeeded (db : Db) : Type 0 where
    pub only :
        (a d : String) (k : ℕ)
        → HasRow prisma t db a d k
        → In (closure_row t a d k) (build_closure_rows t users)
    pub all : (r : ClosureRow) → In r (build_closure_rows t users) → In r (prisma.rows db)

  -- A table with the rows that the seed builds of managers without cycles, each of whom is in the
  -- list, represents the hierarchy of those managers.
  pub build_closure_rows-Represents :
      (rank : String → ℕ) (db : Db)
      → IsRanked rank (manager_of users)
      → HasManagers users
      → IsSeeded db
      → Represents prisma t db (manager_of users)
  unfolding up
  build_closure_rows-Represents rank db ranked managers seeded =
      let node : (x : SeedNode) (d : String) → In x users → x.id ≡ d → IsNode prisma t db d =
        λ x d at is. seeded.all (closure_row t d d 0) (
          (build_closure_rows_iff t users rank ranked (closure_row t d d 0)).1
            (x, at, ap (λ i. closure_row t d i 0) (sym is), ap some is)) in
      let way : (a d : String) (k : ℕ)
          → HasRow prisma t db a d k
          → ((x : SeedNode) × In x users × (x.id ≡ d)) × (up (manager_of users) k d ≡ some a) =
        λ a d k row.
          let (x, at, shape, climbed) =
            (build_closure_rows_iff t users rank ranked (closure_row t a d k)).0
              (seeded.only a d k row) in
          let same : d ≡ x.id = ap (λ (r : ClosureRow). r.descendant_user_id) shape in
          ((x, at, sym same), ap (λ i. up (manager_of users) k i) same ∙ climbed) in
      record {
        sound = λ a d k row. (way a d k row).1;
        complete = λ a d k registered climbed.
            let (x, at, is) = (way d d 0 registered).0 in
            seeded.all (closure_row t a d k) (
              (build_closure_rows_iff t users rank ranked (closure_row t a d k)).1 (
                x,
                at,
                ap (λ i. closure_row t a i k) (sym is),
                ap (λ i. up (manager_of users) k i) is ∙ climbed,
              ));
        edge_nodes = λ d m edge.
            let (x, at_x, is_x) = listed users d m edge in
            let (y, at_y, is_y) = managers d m edge in (node x d at_x is_x, node y m at_y is_y);
      }

-- A test of a list: each manager is in it, has a name, and a lower rank than the report.
unfoldable pub is_tree : (String → ℕ) → List String → List SeedNode → Bool
is_tree rank ids [] = true
is_tree rank ids (u ∷ users) = elim u.manager_id [
  | none ↦ is_tree rank ids users
  | some m ↦
      ltb (rank m) (rank u.id) && not (is_blank m) && includes ids m && is_tree rank ids users
]

is_tree-In :
    (rank : String → ℕ) (ids : List String) (users : List SeedNode) (u : SeedNode) (m : String)
    → is_tree rank ids users ≡ true
    → In u users
    → u.manager_id ≡ some m
    → (rank m < rank u.id) × (m ≢ "") × In m ids
unfolding is_tree
is_tree-In rank ids [] u m h at edge = absurd at
is_tree-In rank ids (v ∷ users) u m h (inl here) edge =
    let own : v.manager_id ≡ some m = ap (λ (x : SeedNode). x.manager_id) here ∙ edge in
    let tested = rw (own, is_tree) at h in
    let same = ap (λ (x : SeedNode). rank x.id) here in
    (ground (arith, same), ground (arith, eq_iff m ""), ground (arith, includes_iff ids m))
is_tree-In rank ids (v ∷ users) u m h (inr there) edge = elim (Option-cases v.manager_id) [
  | inl top ↦ is_tree-In rank ids users u m (rw (top, is_tree) at h) there edge
  | inr (x, own) ↦
      let tested = rw (own, is_tree) at h in is_tree-In rank ids users u m (ground arith) there edge
]

abbrev pub ids_of : List SeedNode → List String
ids_of users = map (λ (u : SeedNode). u.id) users

-- The managers of a list that passes the test.
pub is_tree-edge :
    (rank : String → ℕ) (users : List SeedNode) (d m : String)
    → is_tree rank (ids_of users) users ≡ true
    → manager_of users d ≡ some m
    → (rank m < rank d) × (m ≢ "") × In m (ids_of users)
unfolding manager_of
is_tree-edge rank users d m h edge = elim (Option-cases (entry_of users d)) [
  | inr (u, found) ↦
      let (at, is) = entry_of-In users d u found in
      subst (λ x. (rank m < rank x) × (m ≢ "") × In m (ids_of users)) is
        (is_tree-In rank (ids_of users) users u m h at (rw (found, manager_of) at edge))
  | inl missing ↦ cc (rw (missing, manager_of) at edge)
]

pub is_tree-IsRanked :
    (rank : String → ℕ) (users : List SeedNode)
    → is_tree rank (ids_of users) users ≡ true
    → IsRanked rank (manager_of users)
is_tree-IsRanked rank users h = record {
  falls = λ d m edge. (is_tree-edge rank users d m h edge).0;
  named = λ d m edge. (is_tree-edge rank users d m h edge).1;
}

pub is_tree-HasManagers :
    (rank : String → ℕ) (users : List SeedNode)
    → is_tree rank (ids_of users) users ≡ true
    → HasManagers users
is_tree-HasManagers rank users h =
    λ d m edge. (In-map (λ (u : SeedNode). u.id) m users).0 (is_tree-edge rank users d m h edge).2
