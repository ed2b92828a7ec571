-- ===== src/Access/Authorities.antt =====
-- What `resolveAuthorities` of src/auth/auth.service.ts collects.
use iam_access_control_servi.Prelude.{
  String, ◌≡◌, refl, sym, subst, ◌↔◌, ◌⊎◌, inl, inr, Bool-cases, List, [], ◌∷◌, In, In-append,
  includes, includes_iff, text_instance, arith,
}
use iam_access_control_servi.Domain.Models.{Permission, UserRole}
use iam_access_control_servi.Authorization.Facts.{
  add_name, add_permissions, collect_names, where_grant,
}
use iam_access_control_servi.Access.Login.{Services, resolve_authorities, role_names}

-- Some element of the list fits.
abbrev pub Some : {A : Type 0} → (A → Type 0) → List A → Type 0
Some {A} F xs = (a : A) × In a xs × F a

-- A loop that adds what fits its first element, and then goes on.
step_iff :
    {A Old New Result : Type 0} (F : A → Type 0) (x : A) (xs : List A)
    → New ↔ (Old ⊎ F x)
    → Result ↔ (New ⊎ Some F xs)
    → Result ↔ (Old ⊎ Some F (x ∷ xs))
step_iff F x xs (to, from) (found, back) = (
  λ r. elim (found r) [
    | inl new ↦ elim (to new) [ inl old ↦ inl old | inr here ↦ inr (x, inl refl, here) ]
    | inr (a, at, fits) ↦ inr (a, inr at, fits)
  ],
  λ h. elim h [
    | inl old ↦ back (inl (from (inl old)))
    | inr (a, at, fits) ↦ elim at [
      | inl same ↦ back (inl (from (inr (subst F (sym same) fits))))
      | inr later ↦ back (inr (a, later, fits))
    ]
  ],
)

add_name_iff :
    (name n : String) (ns : List String) → In n (add_name name ns) ↔ (In n ns ⊎ (name ≡ n))
unfolding add_name
add_name_iff name n ns =
    let (to, from) = In-append n ns (name ∷ []) in
    elim (Bool-cases (includes ns name)) [
      | inl old ↦ rw old (
        λ h. inl h,
        λ h. elim h [
          | inl at ↦ at
          | inr same ↦ subst (λ x. In x ns) same ((includes_iff ns name).0 old)
        ],
      )
      | inr new ↦ rw new (λ h. ground (arith, to h), λ h. from (ground arith))
    ]

-- The role of a row, and one of its role's permissions, have the name.
abbrev pub HasRole : String → UserRole → Type 0
HasRole name row = row.role_name ≡ name

abbrev pub Grants : String → UserRole → Type 0
Grants name row = Some (λ (p : Permission). p.name ≡ name) row.role_permissions

role_names_iff :
    (n : String) (rows : List UserRole) (ns : List String)
    → In n (role_names rows ns) ↔ (In n ns ⊎ Some (HasRole n) rows)
unfolding role_names
role_names_iff n [] ns = (λ h. inl h, λ h. elim h [ inl at ↦ at | inr (a, at, fits) ↦ absurd at ])
role_names_iff n (row ∷ rows) ns =
    step_iff (HasRole n) row rows (add_name_iff row.role_name n ns)
      (role_names_iff n rows (add_name row.role_name ns))

add_permissions_iff :
    (n : String) (ps : List Permission) (ns : List String)
    → In n (add_permissions ps ns) ↔ (In n ns ⊎ Some (λ (p : Permission). p.name ≡ n) ps)
unfolding add_permissions
add_permissions_iff n [] ns =
    (λ h. inl h, λ h. elim h [ inl at ↦ at | inr (a, at, fits) ↦ absurd at ])
add_permissions_iff n (p ∷ ps) ns =
    step_iff (λ (q : Permission). q.name ≡ n) p ps (add_name_iff p.name n ns)
      (add_permissions_iff n ps (add_name p.name ns))

collect_names_iff :
    (n : String) (rows : List UserRole) (ns : List String)
    → In n (collect_names rows ns) ↔ (In n ns ⊎ Some (Grants n) rows)
unfolding collect_names
collect_names_iff n [] ns =
    (λ h. inl h, λ h. elim h [ inl at ↦ at | inr (a, at, fits) ↦ absurd at ])
collect_names_iff n (row ∷ rows) ns =
    step_iff (Grants n) row rows (add_permissions_iff n row.role_permissions ns)
      (collect_names_iff n rows (add_permissions row.role_permissions ns))

from_nothing : {A B : Type 0} → A ↔ (⊥ ⊎ B) → A ↔ B
from_nothing (to, from) =
    (λ a. elim (to a) [ inl none_left ↦ absurd none_left | inr b ↦ b ], λ b. from (inr b))

-- The names of the roles of the user, and of the permissions of those roles, and no others.
pub record AreAuthorities (s : Services) (tenant_id user_id : String)
    (roles permissions : List String) : Type 0 where
  pub roles_iff :
      (name : String)
      → In name roles ↔ Some (HasRole name) (s.find_user_roles (where_grant tenant_id user_id))
  pub permissions_iff :
      (name : String)
      → In name permissions ↔ Some (Grants name) (s.find_user_roles (where_grant tenant_id user_id))

pub resolve-AreAuthorities :
    (s : Services) (t u : String)
    → AreAuthorities s t u (resolve_authorities s t u).0 (resolve_authorities s t u).1
unfolding resolve_authorities
resolve-AreAuthorities s t u = record {
  roles_iff = λ n. from_nothing (role_names_iff n (s.find_user_roles (where_grant t u)) []);
  permissions_iff =
      λ n. from_nothing (collect_names_iff n (s.find_user_roles (where_grant t u)) []);
}
