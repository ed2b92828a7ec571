-- ===== src/Hierarchy/Memory/Sorted.antt =====
-- Reading the table in memory in the order of the depths, by insertion.
use iam_access_control_servi.Prelude.{
  ◌≡◌, ◌↔◌, ◌⊎◌, inl, inr, ap, List, [], ◌∷◌, leb, arith, In, In-select, select, Bool-cases,
  if◌then◌else◌,
}
use iam_access_control_servi.Domain.Models.{ClosureRow}
use iam_access_control_servi.Hierarchy.Listings.{DepthOrder, IsAscending}
use iam_access_control_servi.Hierarchy.Memory.{memory}

unfoldable pub insert_row : ClosureRow → List ClosureRow → List ClosureRow
insert_row r [] = r ∷ []
insert_row r (s ∷ rows) =
    let further = insert_row r rows in if leb r.depth s.depth then r ∷ s ∷ rows else s ∷ further

unfoldable pub sort_rows : List ClosureRow → List ClosureRow
unfolding insert_row
sort_rows [] = []
sort_rows (r ∷ rows) = insert_row r (sort_rows rows)

insert_row_iff :
    (r x : ClosureRow) (rows : List ClosureRow) → In x (insert_row r rows) ↔ ((r ≡ x) ⊎ In x rows)
unfolding insert_row
insert_row_iff r x [] = (λ h. h, λ h. h)
insert_row_iff r x (s ∷ rows) =
    let (to, from) = insert_row_iff r x rows in
    elim (Bool-cases (leb r.depth s.depth)) [
      | inl first ↦ rw first (λ h. h, λ h. h)
      | inr after ↦ rw after (
        λ h. elim h [
          | inl here ↦ inr (inl here)
          | inr there ↦ elim (to there) [ inl new ↦ inl new | inr old ↦ inr (inr old) ]
        ],
        λ h. elim h [
          | inl new ↦ inr (from (inl new))
          | inr (inl here) ↦ inl here
          | inr (inr old) ↦ inr (from (inr old))
        ],
      )
    ]

abbrev pub IsSorted : List ClosureRow → Type 0
IsSorted rows = IsAscending (λ (r : ClosureRow). r.depth) rows

insert_row-IsSorted :
    (r : ClosureRow) (rows : List ClosureRow) → IsSorted rows → IsSorted (insert_row r rows)
unfolding insert_row
insert_row-IsSorted r [] h = (λ y at. absurd at, tt)
insert_row-IsSorted r (s ∷ rows) (first, rest) = elim (Bool-cases (leb r.depth s.depth)) [
  | inl small ↦ rw small (
    λ y at. elim at [
      | inl here ↦ let same = ap (λ (x : ClosureRow). x.depth) here in ground (arith, same)
      | inr there ↦ ground (arith, first y there)
    ],
    (first, rest),
  )
  | inr large ↦ rw large (
    λ y at. elim ((insert_row_iff r y rows).0 at) [
      | inl new ↦ let same = ap (λ (x : ClosureRow). x.depth) new in ground (arith, same)
      | inr old ↦ first y old
    ],
    insert_row-IsSorted r rows rest,
  )
]

pub sort_rows_iff : (x : ClosureRow) (rows : List ClosureRow) → In x (sort_rows rows) ↔ In x rows
unfolding sort_rows
sort_rows_iff x [] = (λ h. h, λ h. h)
sort_rows_iff x (r ∷ rows) =
    let (to, from) = sort_rows_iff x rows in
    let (split, join) = insert_row_iff r x (sort_rows rows) in
    (
      λ h. elim (split h) [ inl here ↦ inl here | inr there ↦ inr (to there) ],
      λ h. elim h [ inl here ↦ join (inl here) | inr there ↦ join (inr (from there)) ],
    )

pub sort_rows-IsSorted : (rows : List ClosureRow) → IsSorted (sort_rows rows)
unfolding sort_rows
sort_rows-IsSorted [] = tt
sort_rows-IsSorted (r ∷ rows) = insert_row-IsSorted r (sort_rows rows) (sort_rows-IsSorted rows)

unfoldable pub by_depth : DepthOrder memory
unfolding memory sort_rows
by_depth = record {
  find_by_depth = λ p db. sort_rows (select p db.rows);
  find_by_depth_iff = λ p db r.
      let (to, from) = sort_rows_iff r (select p db.rows) in
      let (down, back) = In-select p r db.rows in (λ h. down (to h), λ h. from (back h));
  find_by_depth_order = λ p db. sort_rows-IsSorted (select p db.rows);
}
