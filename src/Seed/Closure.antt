-- ===== src/Seed/Closure.antt =====
-- prisma/seed.ts: `buildClosureRows`, the closure rows of a list of users with their managers.
use iam_access_control_servi.Prelude.{
  ℕ, zero, suc, ◌+◌, ◌≤◌, ◌<◌, String, ◌≡◌, refl, sym, ap, ◌∙◌, true, false, ◌||◌, Option, none,
  some, List, [], ◌∷◌, ◌++◌, length, inl, inr, includes, text_instance, is_blank, str_eq, eq_iff,
  if◌then◌else◌, Bool-cases, Option-cases, arith,
}
use iam_access_control_servi.Domain.Models.{ClosureRow}
use iam_access_control_servi.Hierarchy.{closure_row}
use iam_access_control_servi.Hierarchy.Forest.{Managers}

-- `{ id, managerId }`
pub record SeedNode : Type 0 where
  pub id : String
  pub manager_id : Option String

-- The entry of a key in `new Map(...)`: the last one of the list counts.
unfoldable pub entry_of : List SeedNode → String → Option SeedNode
entry_of [] x = none
entry_of (u ∷ users) x = elim (entry_of users x) [
  | some later ↦ some later
  | none ↦ if str_eq u.id x then some u else none
]

-- `managerOf.get(x) ?? null`
unfoldable pub manager_of : List SeedNode → Managers
unfolding entry_of
manager_of users x = elim (entry_of users x) [ none ↦ none | some u ↦ u.manager_id ]

module _ (t : String) (users : List SeedNode) where
  -- The `while` loop for one user, on fuel; `seen` is the set.
  unfoldable pub climb : ℕ → String → Option String → ℕ → List String → List ClosureRow
  unfolding manager_of
  climb zero u cur depth seen = []
  climb (suc fuel) u none depth seen = []
  climb (suc fuel) u (some c) depth seen =
      let rest = climb fuel u (manager_of users c) (depth + 1) (c ∷ seen) in
      if is_blank c || includes seen c then [] else closure_row t c u depth ∷ rest

  -- The rows of one user.
  unfoldable pub user_rows : ℕ → String → List ClosureRow
  unfolding climb
  user_rows fuel u = closure_row t u u 0 ∷ climb fuel u (manager_of users u) 1 []

  -- The `for` loop.
  unfoldable pub all_rows : ℕ → List SeedNode → List ClosureRow
  unfolding user_rows
  all_rows fuel [] = []
  all_rows fuel (u ∷ us) = user_rows fuel u.id ++ all_rows fuel us

  -- Each round but the last sees another of the users.
  unfoldable pub build_closure_rows : List ClosureRow
  unfolding all_rows
  build_closure_rows = all_rows (length users + 1) users

  -- How many entries of the list the loop has not seen.
  abbrev pub left : List String → List SeedNode → ℕ
  left seen [] = 0
  left seen (u ∷ us) = let rest = left seen us in if includes seen u.id then rest else suc rest

  left_none : (us : List SeedNode) → left [] us ≡ length us
  left_none [] = refl
  left_none (u ∷ us) = ap suc (left_none us)

  left_falls :
      (c : String) (seen : List String) (us : List SeedNode) → left (c ∷ seen) us ≤ left seen us
  left_falls c seen [] = omega arith
  left_falls c seen (u ∷ us) = ground (arith, left_falls c seen us)

  left_drops :
      (c : String) (seen : List String) (us : List SeedNode) (u : SeedNode)
      → includes seen c ≡ false
      → entry_of us c ≡ some u
      → left (c ∷ seen) us < left seen us
  unfolding entry_of
  left_drops c seen [] u new found = cc
  left_drops c seen (x ∷ us) u new found = elim (Option-cases (entry_of us c)) [
    | inr (v, later) ↦
        let fewer = left_drops c seen us v new later in ground (arith, left_falls c seen us)
    | inl missing ↦
        let here : str_eq x.id c ≡ true = ground (arith, rw (missing, entry_of) at found) in
        let same : x.id ≡ c = (eq_iff x.id c).0 here in
        let fresh : includes seen x.id ≡ false = ap (includes seen) same ∙ new in
        let back : str_eq c x.id ≡ true = (eq_iff c x.id).1 (sym same) in
        rw (fresh, back) (ground (arith, left_falls c seen us))
  ]

  climb-none :
      (n : ℕ) (u : String) (depth : ℕ) (seen : List String) → climb n u none depth seen ≡ []
  unfolding climb
  climb-none zero u depth seen = refl
  climb-none (suc n) u depth seen = refl

  -- With more fuel than users that are not seen, one unit more changes nothing.
  climb_stable :
      (n : ℕ) (u : String) (cur : Option String) (depth : ℕ) (seen : List String)
      → left seen users < n
      → climb n u cur depth seen ≡ climb (suc n) u cur depth seen
  unfolding climb manager_of
  climb_stable zero u cur depth seen h = absurd (omega arith)
  climb_stable (suc n) u none depth seen h = refl
  climb_stable (suc n) u (some c) depth seen h = elim (Bool-cases (is_blank c || includes seen c)) [
    | inl stop ↦ rw stop refl
    | inr go ↦ elim (Option-cases (entry_of users c)) [
      | inl top ↦
          let at_top : manager_of users c ≡ none = rw (top, manager_of) refl in
          rw (go, at_top)
            (ap (λ rows. closure_row t c u depth ∷ rows) (climb-none n u (depth + 1) (c ∷ seen)))
      | inr (v, found) ↦
          let new : includes seen c ≡ false = ground arith in
          let fewer = left_drops c seen users v new found in
          rw go (
            ap (λ rows. closure_row t c u depth ∷ rows)
              (climb_stable n u (manager_of users c) (depth + 1) (c ∷ seen)
                (omega (arith, fewer, h))))
    ]
  ]

  -- With more fuel than users that are not seen, any more changes nothing.
  pub climb_enough :
      (m n : ℕ) (u : String) (cur : Option String) (depth : ℕ) (seen : List String)
      → left seen users < n
      → climb n u cur depth seen ≡ climb (m + n) u cur depth seen
  climb_enough zero n u cur depth seen h = ap (λ f. climb f u cur depth seen) (omega arith)
  climb_enough (suc m) n u cur depth seen h =
      let next : suc (m + n) ≡ suc m + n = omega arith in
      climb_enough m n u cur depth seen h
      ∙ climb_stable (m + n) u cur depth seen (omega (arith, h))
      ∙ ap (λ f. climb f u cur depth seen) next

  user_rows_enough :
      (m : ℕ) (u : String) → user_rows (length users + 1) u ≡ user_rows (m + (length users + 1)) u
  unfolding user_rows
  user_rows_enough m u =
      ap (λ rows. closure_row t u u 0 ∷ rows)
        (climb_enough m (length users + 1) u (manager_of users u) 1 []
          (omega (arith, left_none users)))

  all_rows_enough :
      (m : ℕ) (us : List SeedNode)
      → all_rows (length users + 1) us ≡ all_rows (m + (length users + 1)) us
  unfolding all_rows
  all_rows_enough m [] = refl
  all_rows_enough m (u ∷ us) = λ i. user_rows_enough m u.id i ++ all_rows_enough m us i

  -- The loop ends: whatever the managers, cycles among them included, more rounds than one for
  -- each user and one more change nothing.
  pub build_closure_rows_total :
      (m : ℕ) → build_closure_rows ≡ all_rows (m + (length users + 1)) users
  unfolding build_closure_rows
  build_closure_rows_total m = all_rows_enough m users
