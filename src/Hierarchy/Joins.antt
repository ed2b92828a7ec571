-- ===== src/Hierarchy/Joins.antt =====
-- The rows that the loops of the cross-join make, and the rows that its queries read.
use iam_access_control_servi.Prelude.{
  ◌+◌, String, ◌≡◌, ◌↔◌, inl, inr, refl, ap, ◌∙◌, true, List, [], ◌∷◌, arith, eq_iff, In, In-append,
}
use iam_access_control_servi.Domain.Models.{ClosureRow}
use iam_access_control_servi.Hierarchy.{
  closure_row, where_ancestor, where_descendant, where_pair, join_row, cross_join,
}

-- The row that joins an ancestor of the manager with a descendant of the user.
abbrev pub joined : String → ClosureRow → ClosureRow → ClosureRow
joined t anc desc =
    closure_row t anc.ancestor_user_id desc.descendant_user_id (anc.depth + desc.depth + 1)

In-join_row :
    (t : String) (anc r : ClosureRow) (ds : List ClosureRow)
    → In r (join_row t anc ds) ↔ ((d : ClosureRow) × In d ds × (joined t anc d ≡ r))
unfolding join_row
In-join_row t anc r [] = (λ h. absurd h, λ h. absurd h.1)
In-join_row t anc r (d ∷ ds) = (
  λ h. elim h [
    | inl e ↦ (d, inl refl, e)
    | inr later ↦ let (x, at, e) = (In-join_row t anc r ds).0 later in (x, inr at, e)
  ],
  λ (x, at, e). elim at [
    | inl same ↦ inl (ap (joined t anc) same ∙ e)
    | inr later ↦ inr ((In-join_row t anc r ds).1 (x, later, e))
  ],
)

-- The cross-join has one row for each pair, and no others.
pub In-cross_join :
    (t : String) (r : ClosureRow) (bs ds : List ClosureRow)
    → In r (cross_join t bs ds)
      ↔ ((a : ClosureRow) × In a bs × ((d : ClosureRow) × In d ds × (joined t a d ≡ r)))
unfolding cross_join
In-cross_join t r [] ds = (λ h. absurd h, λ h. absurd h.1)
In-cross_join t r (a ∷ bs) ds =
    let split = In-append r (join_row t a ds) (cross_join t bs ds) in
    (
      λ h. elim (split.0 h) [
        | inl here ↦ (a, inl refl, (In-join_row t a r ds).0 here)
        | inr later ↦ let (x, at, pair) = (In-cross_join t r bs ds).0 later in (x, inr at, pair)
      ],
      λ (x, at, (d, at_d, e)). elim at [
        | inl same ↦
            split.1 (inl ((In-join_row t a r ds).1 (d, at_d, ap (λ b. joined t b d) same ∙ e)))
        | inr later ↦ split.1 (inr ((In-cross_join t r bs ds).1 (x, later, (d, at_d, e))))
      ],
    )

pub where_ancestor_iff :
    (t u : String) (r : ClosureRow)
    → (where_ancestor t u r ≡ true) ↔ (r ≡ closure_row t u r.descendant_user_id r.depth)
where_ancestor_iff t u r = ground (arith, eq_iff r.tenant_id t, eq_iff r.ancestor_user_id u)

pub where_descendant_iff :
    (t u : String) (r : ClosureRow)
    → (where_descendant t u r ≡ true) ↔ (r ≡ closure_row t r.ancestor_user_id u r.depth)
where_descendant_iff t u r = ground (arith, eq_iff r.tenant_id t, eq_iff r.descendant_user_id u)

pub where_pair_iff :
    (t a d : String) (r : ClosureRow)
    → (where_pair t a d r ≡ true) ↔ (r ≡ closure_row t a d r.depth)
where_pair_iff t a d r =
    ground (arith, eq_iff r.tenant_id t, eq_iff r.ancestor_user_id a, eq_iff r.descendant_user_id d)
