-- ===== src/Seed/Rows.antt =====
-- The closure rows that the seed builds represent the hierarchy of the managers in its list.
use iam_access_control_servi.Prelude.{
  ℕ, zero, suc, ◌+◌, ◌-◌, ◌≤◌, ◌<◌, String, ◌≡◌, ◌≢◌, ◌↔◌, refl, sym, ap, subst, ◌∙◌, false, ◌||◌,
  Option, none, some, some-inj, List, [], ◌∷◌, In, In-append, inl, inr, includes, includes_iff,
  text_instance, is_blank, length, eq_iff, Bool-cases, Option-cases, arith, dec_lt,
}
use iam_access_control_servi.Domain.Models.{ClosureRow}
use iam_access_control_servi.Hierarchy.{closure_row}
use iam_access_control_servi.Hierarchy.Forest.{Managers, up, up-add, up-first, up-sub, up-suc}
use iam_access_control_servi.Seed.Closure.{
  SeedNode, all_rows, build_closure_rows, build_closure_rows_total, climb, manager_of, user_rows,
}

-- The managers have a rank, below that of their reports, and an id that is not empty.
pub record IsRanked (rank : String → ℕ) (mgr : Managers) : Type 0 where
  pub falls : (d m : String) → mgr d ≡ some m → rank m < rank d
  pub named : (d m : String) → mgr d ≡ some m → m ≢ ""

module _ (mgr : Managers) where
  up_single : (d : String) → up mgr 1 d ≡ mgr d
  unfolding up
  up_single d = elim (Option-cases (mgr d)) [
    | inl top ↦ rw (top, up) refl
    | inr (m, edge) ↦ rw (edge, up) refl
  ]

  -- A way up has every shorter way.
  up_before :
      (i k : ℕ) (d a : String) → i ≤ k → up mgr k d ≡ some a → (b : String) × (up mgr i d ≡ some b)
  unfolding up
  up_before zero k d a h e = (d, refl)
  up_before (suc i) zero d a h e = absurd (omega arith)
  up_before (suc i) (suc k) d a h e =
      let (m, edge, rest) = up-first mgr k d a e in
      let (b, way) = up_before i k m a (omega arith) rest in (b, up-suc mgr i d m edge ∙ way)

  -- The last step of a way up is to a manager.
  up_last :
      (i : ℕ) (d a : String)
      → up mgr (suc i) d ≡ some a
      → (b : String) × (up mgr i d ≡ some b) × (mgr b ≡ some a)
  up_last i d a e =
      let (b, way) = up_before i (suc i) d a (omega arith) e in
      let step = up-sub mgr i (suc i) d b a (omega arith) way e in
      let one : suc i - i ≡ 1 = omega arith in
      (b, way, sym (up_single b) ∙ ap (λ n. up mgr n b) (sym one) ∙ step)

  module _ (rank : String → ℕ) (ranked : IsRanked rank mgr) where
    up_falls : (k : ℕ) (d a : String) → up mgr k d ≡ some a → rank a + k ≤ rank d
    unfolding up
    up_falls zero d a e = let same : d ≡ a = some-inj e in rw same (omega arith)
    up_falls (suc k) d a e =
        let (m, edge, rest) = up-first mgr k d a e in
        omega (arith, ranked.falls d m edge, up_falls k m a rest)

    -- Nobody is above themselves.
    up_acyclic : (k : ℕ) (d : String) → 0 < k → up mgr k d ≢ some d
    up_acyclic k d pos e = absurd (omega (arith, up_falls k d d e))

module _ (t : String) (users : List SeedNode) where
  -- The managers of the list.
  abbrev mgr : Managers
  mgr = manager_of users

  next_up :
      (u c : String) (depth : ℕ)
      → some c ≡ up mgr depth u
      → manager_of users c ≡ up mgr (depth + 1) u
  next_up u c depth at = sym (up-add mgr depth 1 u c (sym at) ∙ up_single mgr c)

  -- What a row of the loop says.
  climb_sound :
      (n : ℕ) (u : String) (cur : Option String) (depth : ℕ) (seen : List String) (r : ClosureRow)
      → cur ≡ up mgr depth u
      → In r (climb t users n u cur depth seen)
      → (r ≡ closure_row t r.ancestor_user_id u r.depth)
        × (up mgr r.depth u ≡ some r.ancestor_user_id)
  unfolding climb
  climb_sound zero u cur depth seen r at h = absurd h
  climb_sound (suc n) u none depth seen r at h = absurd h
  climb_sound (suc n) u (some c) depth seen r at h =
      elim (Bool-cases (is_blank c || includes seen c)) [
        | inl stop ↦ absurd (rw stop at h)
        | inr go ↦ elim (rw go at h) [
          | inl here ↦
              subst
                (λ (x : ClosureRow).
                  (x ≡ closure_row t x.ancestor_user_id u x.depth)
                  × (up mgr x.depth u ≡ some x.ancestor_user_id))
                here (refl, sym at)
          | inr there ↦
              climb_sound n u (manager_of users c) (depth + 1) (c ∷ seen) r (next_up u c depth at)
                there
        ]
      ]

  module _ (rank : String → ℕ) (ranked : IsRanked rank (manager_of users)) where
    -- Whoever the loop has seen is below on the way up.
    abbrev IsBelow : String → ℕ → List String → Type 0
    IsBelow u depth seen = (s : String) → In s seen → (i : ℕ) × (i < depth) × (up mgr i u ≡ some s)

    not_stopped :
        (u c : String) (depth : ℕ) (seen : List String)
        → 0 < depth
        → up mgr depth u ≡ some c
        → IsBelow u depth seen
        → (is_blank c || includes seen c) ≡ false
    not_stopped u c zero seen pos way below = absurd (omega arith)
    not_stopped u c (suc e) seen pos way below = elim (Bool-cases (includes seen c)) [
      | inl again ↦
          let (i, earlier, before) = below c ((includes_iff seen c).0 again) in
          absurd (
            up_acyclic mgr rank ranked (suc e - i) c (omega arith)
              (up-sub mgr i (suc e) u c c (omega arith) before way))
      | inr new ↦
          let (b, before, edge) = up_last mgr e u c way in
          ground (arith, eq_iff c "", ranked.named b c edge)
    ]

    further-IsBelow :
        (u c : String) (depth : ℕ) (seen : List String)
        → up mgr depth u ≡ some c
        → IsBelow u depth seen
        → IsBelow u (depth + 1) (c ∷ seen)
    further-IsBelow u c depth seen way below s (inl here) = (depth, omega arith, way ∙ ap some here)
    further-IsBelow u c depth seen way below s (inr old) =
        let (i, earlier, before) = below s old in (i, omega arith, before)

    climb_complete :
        (n : ℕ) (u : String) (cur : Option String) (depth : ℕ) (seen : List String) (k : ℕ)
        (a : String)
        → cur ≡ up mgr depth u
        → 0 < depth
        → depth ≤ k
        → k < n + depth
        → IsBelow u depth seen
        → up mgr k u ≡ some a
        → In (closure_row t a u k) (climb t users n u cur depth seen)
    unfolding climb
    climb_complete zero u cur depth seen k a at pos low high below way = absurd (omega arith)
    climb_complete (suc n) u none depth seen k a at pos low high below way =
        let (b, before) = up_before mgr depth k u a low way in cc
    climb_complete (suc n) u (some c) depth seen k a at pos low high below way =
        rw (not_stopped u c depth seen pos (sym at) below) (elim (dec_lt depth k) [
          | yes further ↦ inr (
              climb_complete n u (manager_of users c) (depth + 1) (c ∷ seen) k a
                (next_up u c depth at) (omega arith) (omega arith) (omega arith)
                (further-IsBelow u c depth seen (sym at) below) way)
          | no late ↦
              let last : depth ≡ k = omega arith in
              let same : c ≡ a = some-inj (at ∙ ap (λ n. up mgr n u) last ∙ way) in
              inl (λ i. closure_row t (same i) u (last i))
        ])

    -- The rows of one user are its ways up, where the fuel is enough.
    user_rows_complete :
        (n : ℕ) (u a : String) (k : ℕ)
        → k ≤ n
        → up mgr k u ≡ some a
        → In (closure_row t a u k) (user_rows t users n u)
    unfolding user_rows up
    user_rows_complete n u a zero room way =
        let same : u ≡ a = some-inj way in inl (ap (λ x. closure_row t x u 0) same)
    user_rows_complete n u a (suc k) room way = inr (
        climb_complete n u (manager_of users u) 1 [] (suc k) a (sym (up_single mgr u)) (omega arith)
          (omega arith) (omega arith) (λ s at. absurd at) way)

    all_rows_complete :
        (n : ℕ) (us : List SeedNode) (x : SeedNode) (a : String) (k : ℕ)
        → k ≤ n
        → In x us
        → up mgr k x.id ≡ some a
        → In (closure_row t a x.id k) (all_rows t users n us)
    unfolding all_rows
    all_rows_complete n (u ∷ us) x a k room (inl here) way =
        let same : u.id ≡ x.id = ap (λ (y : SeedNode). y.id) here in
        (In-append _ (user_rows t users n u.id) (all_rows t users n us)).1 (
          inl (
            subst (λ i. In (closure_row t a x.id k) (user_rows t users n i)) (sym same)
              (user_rows_complete n x.id a k room way)))
    all_rows_complete n (u ∷ us) x a k room (inr there) way =
        (In-append _ (user_rows t users n u.id) (all_rows t users n us)).1
          (inr (all_rows_complete n us x a k room there way))
    all_rows_complete n [] x a k room at way = absurd at

  user_rows_sound :
      (n : ℕ) (u : String) (r : ClosureRow)
      → In r (user_rows t users n u)
      → (r ≡ closure_row t r.ancestor_user_id u r.depth)
        × (up mgr r.depth u ≡ some r.ancestor_user_id)
  unfolding user_rows up
  user_rows_sound n u r (inl here) =
      subst
        (λ (x : ClosureRow).
          (x ≡ closure_row t x.ancestor_user_id u x.depth)
          × (up mgr x.depth u ≡ some x.ancestor_user_id))
        here (refl, refl)
  user_rows_sound n u r (inr there) =
      climb_sound n u (manager_of users u) 1 [] r (sym (up_single mgr u)) there

  all_rows_sound :
      (n : ℕ) (us : List SeedNode) (r : ClosureRow)
      → In r (all_rows t users n us)
      → (x : SeedNode) × In x us
        × (r ≡ closure_row t r.ancestor_user_id x.id r.depth)
        × (up mgr r.depth x.id ≡ some r.ancestor_user_id)
  unfolding all_rows
  all_rows_sound n [] r at = absurd at
  all_rows_sound n (u ∷ us) r at =
      elim ((In-append r (user_rows t users n u.id) (all_rows t users n us)).0 at) [
        | inl here ↦ let (shape, way) = user_rows_sound n u.id r here in (u, inl refl, shape, way)
        | inr there ↦
            let (x, at_x, shape, way) = all_rows_sound n us r there in (x, inr at_x, shape, way)
      ]

  -- The rows that the seed builds of managers without cycles are exactly the ways up from the
  -- users in its list.
  pub build_closure_rows_iff :
      (rank : String → ℕ)
      → IsRanked rank (manager_of users)
      → (r : ClosureRow)
      → In r (build_closure_rows t users) ↔ (
          (x : SeedNode) × In x users
          × (r ≡ closure_row t r.ancestor_user_id x.id r.depth)
          × (up (manager_of users) r.depth x.id ≡ some r.ancestor_user_id))
  unfolding build_closure_rows
  build_closure_rows_iff rank ranked r = (
    λ at. all_rows_sound (length users + 1) users r at,
    λ (x, at, shape, way).
        let more = build_closure_rows_total t users r.depth in
        subst (λ rows. In r rows) (sym more)
          (subst (λ s. In s (all_rows t users (r.depth + (length users + 1)) users)) (sym shape)
            (all_rows_complete rank ranked (r.depth + (length users + 1)) users x r.ancestor_user_id
              r.depth (omega arith) at way)),
  )
