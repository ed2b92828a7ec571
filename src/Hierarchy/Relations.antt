-- ===== src/Hierarchy/Relations.antt =====
-- The queries of the hierarchy service against the hierarchy that the table represents.
use iam_access_control_servi.Prelude.{
  ℕ, zero, suc, ◌<◌, String, ◌≡◌, ◌≢◌, ◌↔◌, inl, inr, refl, sym, ap, subst, ◌∙◌, Bool, true, some,
  none, Option, some-inj, ◌&&◌, arith, str_eq, eq_iff, In, nat_eq, nat_eq_iff, Bool-cases,
  Option-cases, if◌then◌else◌,
}
use iam_access_control_servi.Domain.Enums.{RelationshipType}
use iam_access_control_servi.Domain.Models.{ClosureRow}
use iam_access_control_servi.Hierarchy.{
  closure_row, where_descendant, where_proper, where_direct, is_direct_manager, is_ancestor,
  direct_manager_id, is_found, same_manager, get_relationship,
}
use iam_access_control_servi.Hierarchy.Store.{HierarchyDb}
use iam_access_control_servi.Hierarchy.Forest.{Managers, up, up-first}
use iam_access_control_servi.Hierarchy.Nodes.{HasRow, Represents}

where_proper_iff :
    (t a d : String) (r : ClosureRow)
    → (where_proper t a d r ≡ true) ↔ ((r ≡ closure_row t a d r.depth) × (0 < r.depth))
where_proper_iff t a d r =
    ground (arith, eq_iff r.tenant_id t, eq_iff r.ancestor_user_id a, eq_iff r.descendant_user_id d)

where_direct_iff :
    (t a d : String) (r : ClosureRow) → (where_direct t a d r ≡ true) ↔ (r ≡ closure_row t a d 1)
where_direct_iff t a d r =
    ground (arith, eq_iff r.tenant_id t, eq_iff r.ancestor_user_id a, eq_iff r.descendant_user_id d)

where_edge_iff :
    (t d : String) (r : ClosureRow)
    → ((where_descendant t d r && nat_eq r.depth 1) ≡ true)
      ↔ (r ≡ closure_row t r.ancestor_user_id d 1)
where_edge_iff t d r = ground (arith, eq_iff r.tenant_id t, eq_iff r.descendant_user_id d)

-- One step up is the manager.
up_one : (mgr : Managers) (d a : String) → (up mgr 1 d ≡ some a) ↔ (mgr d ≡ some a)
unfolding up
up_one mgr d a = ground arith

-- The subject and the target have the same manager, whose id is not the empty text.
abbrev pub ShareManager : Managers → String → String → Type 0
ShareManager mgr s d = (x : String) × (x ≢ "") × (mgr s ≡ some x) × (mgr d ≡ some x)

-- What each answer of `getRelationship` says of the hierarchy.
abbrev pub IsRelated : Managers → String → String → RelationshipType → Type 0
IsRelated mgr s d RelationshipType.self = s ≡ d
IsRelated mgr s d RelationshipType.direct_manager = (s ≢ d) × (mgr d ≡ some s)
IsRelated mgr s d RelationshipType.ancestor = (s ≢ d) × ((k : ℕ) × (1 < k) × (up mgr k d ≡ some s))
IsRelated mgr s d RelationshipType.sibling = ((k : ℕ) → up mgr k d ≢ some s) × ShareManager mgr s d
IsRelated mgr s d RelationshipType.no_relation =
    ((k : ℕ) → up mgr k d ≢ some s) × ¬ ShareManager mgr s d

same_manager_iff :
    (o p : Option String)
    → (same_manager o p ≡ true) ↔ ((x : String) × (x ≢ "") × (o ≡ some x) × (p ≡ some x))
same_manager_iff none p = (λ h. cc, λ (x, full, e, f). cc)
same_manager_iff (some a) none = (λ h. cc, λ (x, full, e, f). cc)
same_manager_iff (some a) (some b) = (
  λ h.
      let both : (a ≢ "") × (a ≡ b) = ground (arith, eq_iff a b, eq_iff a "", eq_iff b "") in
      (a, both.0, refl, ap some (sym both.1)),
  λ (x, full, e, f).
      let same : a ≡ b = some-inj (e ∙ sym f) in
      let at_x : a ≡ x = some-inj e in ground (arith, eq_iff a b, eq_iff a "", eq_iff b ""),
)

is_found_iff : (o : Option ClosureRow) → (is_found o ≡ true) ↔ ((r : ClosureRow) × (o ≡ some r))
is_found_iff none = (λ h. cc, λ (r, e). cc)
is_found_iff (some r) = (λ h. (r, refl), λ h. refl)

module _ {Db : Type 0} (prisma : HierarchyDb Db) (t : String) {db : Db} {mgr : Managers}
    (rep : Represents prisma t db mgr) where
  at_row : {r s : ClosureRow} → r ≡ s → In r (prisma.rows db) → In s (prisma.rows db)
  at_row e h = subst (λ x. In x (prisma.rows db)) e h

  -- A row that matches is found, and what is found matches.
  first_iff :
      (p : ClosureRow → Bool)
      → (is_found (prisma.find_first p db) ≡ true)
        ↔ ((r : ClosureRow) × In r (prisma.rows db) × (p r ≡ true))
  first_iff p = (
    λ h.
        let (r, found) = (is_found_iff (prisma.find_first p db)).0 h in
        let (row, passes) = prisma.find_first_some p db r found in (r, row, passes),
    λ (r, row, passes). elim (Option-cases (prisma.find_first p db)) [
      | inr (x, found) ↦ rw found refl
      | inl missing ↦ cc (prisma.find_first_none p db r missing row, passes)
    ],
  )

  edge_row : (d m : String) → mgr d ≡ some m → HasRow prisma t db m d 1
  edge_row d m e = rep.complete m d 1 (rep.edge_nodes d m e).0 ((up_one mgr d m).1 e)

  no_manager :
      (d : String)
      → prisma.find_first (λ r. where_descendant t d r && nat_eq r.depth 1) db ≡ none
      → mgr d ≡ none
  no_manager d missing = elim (Option-cases (mgr d)) [
    | inl top ↦ top
    | inr (m, e) ↦
        let r = closure_row t m d 1 in
        cc (prisma.find_first_none _ db r missing (edge_row d m e), (where_edge_iff t d r).1 refl)
  ]

  -- `directManagerId` is the manager edge.
  pub direct_manager_id_lem : (d : String) → direct_manager_id prisma t d db ≡ mgr d
  unfolding direct_manager_id
  direct_manager_id_lem d =
      let test = λ (r : ClosureRow). where_descendant t d r && nat_eq r.depth 1 in
      elim (Option-cases (prisma.find_first test db)) [
        | inr (r, found) ↦
            let (row, passes) = prisma.find_first_some test db r found in
            let way =
              rep.sound r.ancestor_user_id d 1 (at_row ((where_edge_iff t d r).0 passes) row) in
            rw (found, direct_manager_id) (sym ((up_one mgr d r.ancestor_user_id).0 way))
        | inl missing ↦ rw (missing, direct_manager_id) (sym (no_manager d missing))
      ]

  pub is_direct_manager_iff :
      (s d : String) → (is_direct_manager prisma t s d db ≡ true) ↔ (mgr d ≡ some s)
  unfolding is_direct_manager
  is_direct_manager_iff s d =
      let (to, from) = first_iff (where_direct t s d) in
      (
        λ h.
            let (r, row, passes) = to h in
            (up_one mgr d s).0 (rep.sound s d 1 (at_row ((where_direct_iff t s d r).0 passes) row)),
        λ e. from (closure_row t s d 1, edge_row d s e, (where_direct_iff t s d _).1 refl),
      )

  pub proper_row : (s d : String) (k : ℕ) → 0 < k → up mgr k d ≡ some s → HasRow prisma t db s d k
  proper_row s d zero pos way = absurd (omega arith)
  proper_row s d (suc k) pos way =
      let (m, edge, rest) = up-first mgr k d s way in
      rep.complete s d (suc k) (rep.edge_nodes d m edge).0 way

  -- `isAncestor` holds exactly of those properly above the target.
  pub is_ancestor_iff :
      (s d : String)
      → (is_ancestor prisma t s d db ≡ true) ↔ ((k : ℕ) × (0 < k) × (up mgr k d ≡ some s))
  unfolding is_ancestor
  is_ancestor_iff s d =
      let (to, from) = first_iff (where_proper t s d) in
      (
        λ h.
            let (r, row, passes) = to h in
            let (shape, pos) = (where_proper_iff t s d r).0 passes in
            (r.depth, pos, rep.sound s d r.depth (at_row shape row)),
        λ (k, pos, way). from (
          closure_row t s d k,
          proper_row s d k pos way,
          (where_proper_iff t s d (closure_row t s d k)).1 (refl, pos),
        ),
      )

  no_way :
      (s d : String)
      → s ≢ d
      → prisma.find_first (where_proper t s d) db ≡ none
      → (k : ℕ) → up mgr k d ≢ some s
  unfolding up
  no_way s d other missing zero way = other (sym (some-inj way))
  no_way s d other missing (suc k) way =
      let r = closure_row t s d (suc k) in
      cc (
        prisma.find_first_none (where_proper t s d) db r missing
            (proper_row s d (suc k) (omega arith) way),
        (where_proper_iff t s d r).1 (refl, omega arith),
      )

  found_related :
      (s d : String) (r : ClosureRow)
      → s ≢ d
      → prisma.find_first (where_proper t s d) db ≡ some r
      → IsRelated mgr s d
          (if nat_eq r.depth 1 then RelationshipType.direct_manager else RelationshipType.ancestor)
  found_related s d r other found =
      let (row, passes) = prisma.find_first_some (where_proper t s d) db r found in
      let (shape, pos) = (where_proper_iff t s d r).0 passes in
      let way = rep.sound s d r.depth (at_row shape row) in
      elim (Bool-cases (nat_eq r.depth 1)) [
        | inl one ↦
            let flat : r.depth ≡ 1 = (nat_eq_iff r.depth 1).0 one in
            rw one (other, (up_one mgr d s).0 (subst (λ k. up mgr k d ≡ some s) flat way))
        | inr more ↦ rw more (other, (r.depth, ground arith, way))
      ]

  missing_related :
      (s d : String)
      → s ≢ d
      → prisma.find_first (where_proper t s d) db ≡ none
      → IsRelated mgr s d (
          if same_manager (direct_manager_id prisma t s db) (direct_manager_id prisma t d db)
          then RelationshipType.sibling
          else RelationshipType.no_relation)
  missing_related s d other missing =
      rw (direct_manager_id_lem s, direct_manager_id_lem d)
        (elim (Bool-cases (same_manager (mgr s) (mgr d))) [
          | inl shared ↦
              rw shared (no_way s d other missing, (same_manager_iff (mgr s) (mgr d)).0 shared)
          | inr apart ↦ rw apart (
            no_way s d other missing,
            λ share. cc (apart, (same_manager_iff (mgr s) (mgr d)).1 share),
          )
        ])

  -- The answer of `getRelationship` is the relation of the subject to the target in the hierarchy.
  pub get_relationship_sound : (s d : String) → IsRelated mgr s d (get_relationship prisma t s d db)
  unfolding get_relationship
  get_relationship_sound s d = elim (Bool-cases (str_eq s d)) [
    | inl same ↦ rw same ((eq_iff s d).0 same)
    | inr differs ↦
        let other : s ≢ d = λ e. cc (differs, (eq_iff s d).1 e) in
        elim (Option-cases (prisma.find_first (where_proper t s d) db)) [
          | inr (r, found) ↦ rw (differs, found, get_relationship) (found_related s d r other found)
          | inl missing ↦
              rw (differs, missing, get_relationship) (missing_related s d other missing)
        ]
  ]
