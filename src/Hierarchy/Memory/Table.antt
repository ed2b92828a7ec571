-- ===== src/Hierarchy/Memory/Table.antt =====
-- Tables of closure rows as lists.
use iam_access_control_servi.Prelude.{
  String, ◌≡◌, ◌↔◌, ◌⊎◌, inl, inr, refl, ap, ◌∙◌, sym, subst, true, false, ◌&&◌, ◌||◌, none, some,
  some-inj, Option, List, [], ◌∷◌, arith, str_eq, eq_iff, In, Bool, Bool-cases, if◌then◌else◌,
  includes, includes_iff, text_instance,
}
use iam_access_control_servi.Domain.Models.{User, ClosureRow}
use iam_access_control_servi.Hierarchy.Store.{HasEnds, HasRefs, HasUser, same_key}

abbrev pub IsUnique : List ClosureRow → Type 0
IsUnique rows = (r s : ClosureRow) → In r rows → In s rows → same_key r s ≡ true → r ≡ s

abbrev pub HasAllEnds : List ClosureRow → List User → Type 0
HasAllEnds rows users = (r : ClosureRow) → In r rows → HasEnds r users

taken : ClosureRow → List ClosureRow → Bool
taken r [] = false
taken r (x ∷ xs) = same_key x r || taken r xs

taken-false :
    (r : ClosureRow) (xs : List ClosureRow)
    → taken r xs ≡ false
    → (s : ClosureRow) → In s xs
    → same_key s r ≡ false
unfolding taken
taken-false r [] h s at = absurd at
taken-false r (x ∷ xs) h s at =
    let rest : taken r xs ≡ false = ground arith in ground (arith, taken-false r xs rest s)

taken-true :
    (r : ClosureRow) (xs : List ClosureRow)
    → taken r xs ≡ true
    → (s : ClosureRow) × In s xs × (same_key s r ≡ true)
unfolding taken
taken-true r [] h = cc
taken-true r (x ∷ xs) h = elim (Bool-cases (same_key x r)) [
  | inl here ↦ (x, inl refl, here)
  | inr other ↦
      let rest : taken r xs ≡ true = ground arith in
      let (s, at, same) = taken-true r xs rest in (s, inr at, same)
]

insert_row : ClosureRow → List ClosureRow → List ClosureRow
insert_row r xs = if taken r xs then xs else r ∷ xs

-- `createMany` with `skipDuplicates`, row by row.
unfoldable pub add_rows : List ClosureRow → List ClosureRow → List ClosureRow
unfolding insert_row taken
add_rows [] xs = xs
add_rows (r ∷ rs) xs = add_rows rs (insert_row r xs)

insert_old : (r s : ClosureRow) (xs : List ClosureRow) → In s xs → In s (insert_row r xs)
unfolding insert_row
insert_old r s xs h = ground arith

insert_only : (r s : ClosureRow) (xs : List ClosureRow) → In s (insert_row r xs) → In s xs ⊎ (r ≡ s)
unfolding insert_row
insert_only r s xs h = ground arith

same_key_symm : (r s : ClosureRow) → same_key r s ≡ true → same_key s r ≡ true
same_key_symm r s h = ground (
  arith,
  eq_iff r.tenant_id s.tenant_id,
  eq_iff s.tenant_id r.tenant_id,
  eq_iff r.ancestor_user_id s.ancestor_user_id,
  eq_iff s.ancestor_user_id r.ancestor_user_id,
  eq_iff r.descendant_user_id s.descendant_user_id,
  eq_iff s.descendant_user_id r.descendant_user_id,
)

insert-IsUnique : (r : ClosureRow) (xs : List ClosureRow) → IsUnique xs → IsUnique (insert_row r xs)
unfolding insert_row
insert-IsUnique r xs u = elim (Bool-cases (taken r xs)) [
  | inl old ↦ rw old u
  | inr new ↦ rw new (λ a b at_a at_b same. elim at_a [
    | inl e ↦ elim at_b [
      | inl f ↦ sym e ∙ f
      | inr h ↦ cc (
        taken-false r xs new b h,
        same_key_symm r b (subst (λ x. same_key x b ≡ true) (sym e) same),
      )
    ]
    | inr h ↦ elim at_b [
      | inl f ↦ cc (taken-false r xs new a h, subst (λ x. same_key a x ≡ true) (sym f) same)
      | inr k ↦ u a b h k same
    ]
  ])
]

pub add_rows_old : (rs xs : List ClosureRow) (s : ClosureRow) → In s xs → In s (add_rows rs xs)
unfolding add_rows
add_rows_old [] xs s h = h
add_rows_old (r ∷ rs) xs s h = add_rows_old rs (insert_row r xs) s (insert_old r s xs h)

pub add_rows_only :
    (rs xs : List ClosureRow) (s : ClosureRow) → In s (add_rows rs xs) → In s xs ⊎ In s rs
unfolding add_rows
add_rows_only [] xs s h = inl h
add_rows_only (r ∷ rs) xs s h = elim (add_rows_only rs (insert_row r xs) s h) [
  | inl k ↦ elim (insert_only r s xs k) [ inl old ↦ inl old | inr e ↦ inr (inl e) ]
  | inr k ↦ inr (inr k)
]

pub add_rows-IsUnique : (rs xs : List ClosureRow) → IsUnique xs → IsUnique (add_rows rs xs)
unfolding add_rows
add_rows-IsUnique [] xs u = u
add_rows-IsUnique (r ∷ rs) xs u = add_rows-IsUnique rs (insert_row r xs) (insert-IsUnique r xs u)

insert_self :
    (r : ClosureRow) (xs : List ClosureRow)
    → ((s : ClosureRow) → In s xs → same_key s r ≡ true → s ≡ r)
    → In r (insert_row r xs)
unfolding insert_row
insert_self r xs free = elim (Bool-cases (taken r xs)) [
  | inl old ↦
      let (s, at, same) = taken-true r xs old in rw old (subst (λ x. In x xs) (free s at same) at)
  | inr new ↦ rw new (inl refl)
]

-- A row whose key is free of the old rows, and only its own among the new, is there afterwards.
pub add_rows_new :
    (rs xs : List ClosureRow) (r : ClosureRow)
    → In r rs
    → ((s : ClosureRow) → In s xs → same_key s r ≡ true → s ≡ r)
    → ((s : ClosureRow) → In s rs → same_key s r ≡ true → s ≡ r)
    → same_key r r ≡ true
    → In r (add_rows rs xs)
unfolding add_rows
add_rows_new [] xs r h free once self = absurd h
add_rows_new (x ∷ rs) xs r (inl e) free once self =
    add_rows_old rs (insert_row x xs) r
      (subst (λ y. In r (insert_row y xs)) (sym e) (insert_self r xs free))
add_rows_new (x ∷ rs) xs r (inr h) free once self =
    add_rows_new rs (insert_row x xs) r h
      (λ s at same. elim (insert_only x s xs at) [
        | inl old ↦ free s old same
        | inr e ↦ once s (inl e) same
      ])
      (λ s at. once s (inr at)) self

-- `findFirst`
unfoldable pub first : (ClosureRow → Bool) → List ClosureRow → Option ClosureRow
first p [] = none
first p (x ∷ xs) = let later = first p xs in if p x then some x else later

pub first-some :
    (p : ClosureRow → Bool) (xs : List ClosureRow) (r : ClosureRow)
    → first p xs ≡ some r
    → In r xs × (p r ≡ true)
unfolding first
first-some p [] r e = cc
first-some p (x ∷ xs) r e = elim (Bool-cases (p x)) [
  | inl here ↦
      let same : x ≡ r = some-inj (rw here at e) in (inl same, subst (λ y. p y ≡ true) same here)
  | inr other ↦ let (at, passes) = first-some p xs r (rw other at e) in (inr at, passes)
]

pub first-none :
    (p : ClosureRow → Bool) (xs : List ClosureRow) (r : ClosureRow)
    → first p xs ≡ none
    → In r xs
    → p r ≡ false
unfolding first
first-none p [] r e h = absurd h
first-none p (x ∷ xs) r e h = ground (arith, first-none p xs r)

-- The foreign keys as a test.
has_user : String → List User → Bool
has_user id [] = false
has_user id (x ∷ xs) = str_eq x.id id || has_user id xs

has_user_iff : (id : String) (us : List User) → (has_user id us ≡ true) ↔ HasUser id us
unfolding has_user
has_user_iff id [] = (λ h. cc, λ h. absurd h.1)
has_user_iff id (x ∷ xs) = (
  λ h. elim (Bool-cases (str_eq x.id id)) [
    | inl here ↦ (x, inl refl, (eq_iff x.id id).0 here)
    | inr other ↦ let (u, at, e) = (has_user_iff id xs).0 (ground arith) in (u, inr at, e)
  ],
  λ (u, at, e). elim at [
    | inl same ↦
        let same_id : x.id ≡ id = ap (λ (y : User). y.id) same ∙ e in ground (arith, eq_iff x.id id)
    | inr h ↦ let later = (has_user_iff id xs).1 (u, h, e) in ground arith
  ],
)

unfoldable pub all_end : List ClosureRow → List User → Bool
unfolding has_user
all_end [] us = true
all_end (r ∷ rs) us =
    has_user r.ancestor_user_id us && has_user r.descendant_user_id us && all_end rs us

pub all_end_iff :
    (rs : List ClosureRow) (us : List User) → (all_end rs us ≡ true) ↔ HasAllEnds rs us
unfolding all_end
all_end_iff [] us = (λ h r at. absurd at, λ h. refl)
all_end_iff (x ∷ rs) us =
    let above = has_user_iff x.ancestor_user_id us in
    let below = has_user_iff x.descendant_user_id us in
    let rest = all_end_iff rs us in
    (
      λ h r at.
          let parts : (has_user x.ancestor_user_id us ≡ true)
              × (has_user x.descendant_user_id us ≡ true)
              × (all_end rs us ≡ true) =
            ground arith in
          elim at [
            | inl e ↦ subst (λ y. HasEnds y us) e (above.0 parts.0, below.0 parts.1)
            | inr later ↦ rest.0 parts.2 r later
          ],
      λ h.
          let a = above.1 (h x (inl refl)).0 in
          let b = below.1 (h x (inl refl)).1 in
          let c = rest.1 (λ r at. h r (inr at)) in ground arith,
    )

abbrev pub HasAllRefs : List ClosureRow → List String → List User → Type 0
HasAllRefs rows tenants users = (r : ClosureRow) → In r rows → HasRefs r tenants users

all_tenants : List ClosureRow → List String → Bool
all_tenants [] ts = true
all_tenants (r ∷ rs) ts = includes ts r.tenant_id && all_tenants rs ts

all_tenants_iff :
    (rs : List ClosureRow) (ts : List String)
    → (all_tenants rs ts ≡ true) ↔ ((r : ClosureRow) → In r rs → In r.tenant_id ts)
unfolding all_tenants
all_tenants_iff [] ts = (λ h r at. absurd at, λ h. refl)
all_tenants_iff (r ∷ rs) ts =
    let (to, from) = includes_iff ts r.tenant_id in
    let (rest, back) = all_tenants_iff rs ts in
    (
      λ h s at. elim at [
        | inl here ↦ subst (λ (x : ClosureRow). In x.tenant_id ts) here (to (ground arith))
        | inr later ↦ rest (ground arith) s later
      ],
      λ h.
          let here = from (h r (inl refl)) in
          let later = back (λ s at. h s (inr at)) in ground arith,
    )

-- The tests of an insert's foreign keys.
unfoldable pub all_known : List ClosureRow → List String → List User → Bool
unfolding all_tenants all_end
all_known rs ts us = all_tenants rs ts && all_end rs us

pub all_known_iff :
    (rs : List ClosureRow) (ts : List String) (us : List User)
    → (all_known rs ts us ≡ true) ↔ HasAllRefs rs ts us
unfolding all_known
all_known_iff rs ts us =
    let (to, from) = all_tenants_iff rs ts in
    let (ends, back) = all_end_iff rs us in
    (
      λ h r at. (to (ground arith) r at, ends (ground arith) r at),
      λ h.
          let tenants = from (λ r at. (h r at).0) in
          let users = back (λ r at. (h r at).1) in ground arith,
    )
