-- ===== src/Hierarchy/Forest.antt =====
-- The abstract view of a tenant's hierarchy: each user has at most one manager, and a closure row
-- of depth k says that k steps up from the descendant lead to the ancestor.
use iam_access_control_servi.Prelude.{
  ℕ, zero, suc, ◌+◌, ◌-◌, ◌≤◌, ◌<◌, String, ◌≡◌, ◌≢◌, ◌⊎◌, inl, inr, refl, sym, ap, ◌∙◌, Option,
  none, some, some-inj, Option-cases, Bool-cases, arith, str_eq, eq_iff, false, dec_lt,
  if◌then◌else◌,
}

-- The manager of each user.
abbrev pub Managers : Type 0
Managers = String → Option String

-- k steps up the manager edges.
unfoldable pub up : Managers → ℕ → String → Option String
up mgr zero d = some d
up mgr (suc k) d = elim (mgr d) [ none ↦ none | some m ↦ up mgr k m ]

-- The managers after `user` got `manager`.
unfoldable pub reassign : String → String → Managers → Managers
reassign user manager mgr d = if str_eq d user then some manager else mgr d

module _ (mgr : Managers) where
  pub up-suc : (k : ℕ) (d m : String) → mgr d ≡ some m → up mgr (suc k) d ≡ up mgr k m
  unfolding up
  up-suc k d m e = rw (e, up) refl

  pub up-suc-none : (k : ℕ) (d : String) → mgr d ≡ none → up mgr (suc k) d ≡ none
  unfolding up
  up-suc-none k d e = rw (e, up) refl

  -- A way up starts with a manager.
  pub up-first :
      (k : ℕ) (d a : String)
      → up mgr (suc k) d ≡ some a
      → (m : String) × (mgr d ≡ some m) × (up mgr k m ≡ some a)
  unfolding up
  up-first k d a e = ground arith

  up_length : {j k : ℕ} (d : String) → j ≡ k → up mgr j d ≡ up mgr k d
  up_length d same = ap (λ n. up mgr n d) same

  -- Ways up compose.
  pub up-add : (j k : ℕ) (d b : String) → up mgr j d ≡ some b → up mgr (j + k) d ≡ up mgr k b
  unfolding up
  up-add zero k d b e = let same : d ≡ b = some-inj e in rw same (up_length b (omega arith))
  up-add (suc j) k d b e =
      let (m, edge, rest) = up-first j d b e in
      up_length {k = suc (j + k)} d (omega arith) ∙ up-suc (j + k) d m edge ∙ up-add j k m b rest

  -- A way up that is longer than another goes on from its end.
  pub up-sub :
      (i k : ℕ) (d b a : String)
      → i ≤ k
      → up mgr i d ≡ some b
      → up mgr k d ≡ some a
      → up mgr (k - i) b ≡ some a
  up-sub i k d b a h e f = sym (up-add i (k - i) d b e) ∙ up_length {k = k} d (omega arith) ∙ f

  at? : (o : Option String) (u : String) → (o ≡ some u) ⊎ (o ≢ some u)
  at? none u = inr (λ e. cc)
  at? (some v) u = elim (Bool-cases (str_eq v u)) [
    | inl same ↦ inl (ap some ((eq_iff v u).0 same))
    | inr other ↦ inr (λ e. cc (other, (eq_iff v u).1 (some-inj e)))
  ]

  meets_last :
      (u : String) (k : ℕ) (d : String)
      → ((i : ℕ) → i < k → up mgr i d ≢ some u)
      → (up mgr k d ≡ some u) ⊎ (up mgr k d ≢ some u)
      → ((i : ℕ) × (i < suc k) × (up mgr i d ≡ some u))
        ⊎ ((i : ℕ) → i < suc k → up mgr i d ≢ some u)
  meets_last u k d before (inl here) = inl (k, omega arith, here)
  meets_last u k d before (inr not_here) = inr (λ i h e. elim (dec_lt i k) [
    | yes earlier ↦ before i earlier e
    | no late ↦ let same : i ≡ k = omega arith in not_here (ap (λ n. up mgr n d) (sym same) ∙ e)
  ])

  -- Whether the first k users on the way up from d include u.
  pub meets :
      (u : String) (k : ℕ) (d : String)
      → ((i : ℕ) × (i < k) × (up mgr i d ≡ some u)) ⊎ ((i : ℕ) → i < k → up mgr i d ≢ some u)
  meets u zero d = inr (λ i h. absurd (omega arith))
  meets u (suc k) d = elim (meets u k d) [
    | inl (i, h, e) ↦ inl (i, omega arith, e)
    | inr before ↦ meets_last u k d before (at? (up mgr k d) u)
  ]

  -- A reassignment changes nothing on a way up that does not pass the user.
  pub up-reassign :
      (u v : String) (k : ℕ) (d : String)
      → ((i : ℕ) → i < k → up mgr i d ≢ some u)
      → up (reassign u v mgr) k d ≡ up mgr k d
  unfolding up reassign
  up-reassign u v zero d h = refl
  up-reassign u v (suc k) d h =
      let other : str_eq d u ≡ false = ground (arith, eq_iff d u, h 0 (omega arith)) in
      elim (Option-cases (mgr d)) [
        | inl top ↦ rw (other, top, up) refl
        | inr (m, edge) ↦
            rw (other, edge, up)
              (up-reassign u v k m (λ i lt e. h (suc i) (omega arith) (up-suc i d m edge ∙ e)))
      ]
