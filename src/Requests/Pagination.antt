-- ===== src/Requests/Pagination.antt =====
-- src/common/dto/pagination.args.ts: `toPrismaPagination`.
use iam_access_control_servi.Prelude.{ℕ, ◌≤◌, ◌≡◌, refl, Option, none, some, min, max, arith}

-- The integers of GraphQL's `Int`.
pub data ℤ : Type 0 where
  pos negsuc : ℕ → ℤ

abbrev pub default_page_size : ℕ
default_page_size = 50

abbrev pub max_page_size : ℕ
max_page_size = 200

pub record PaginationArgs : Type 0 where
  pub take : Option ℤ
  pub skip : Option ℤ

pub record Page : Type 0 where
  pub take : ℕ
  pub skip : ℕ

-- `Math.max(value ?? fallback, least)`
abbrev pub at_least : ℕ → ℕ → Option ℤ → ℕ
at_least least fallback none = max fallback least
at_least least fallback (some (pos n)) = max n least
at_least least fallback (some (negsuc n)) = least

unfoldable pub to_prisma_pagination : PaginationArgs → Page
to_prisma_pagination args = record {
  take = min (at_least 1 default_page_size args.take) max_page_size;
  skip = at_least 0 0 args.skip;
}

min_bounds : (n : ℕ) → 1 ≤ n → (1 ≤ min n 200) × (min n 200 ≤ 200)
min_bounds n h = (ground arith, ground arith)

at_least_lem : (least fallback : ℕ) (o : Option ℤ) → least ≤ at_least least fallback o
at_least_lem least fallback none = ground arith
at_least_lem least fallback (some (pos n)) = ground arith
at_least_lem least fallback (some (negsuc n)) = ground arith

-- Whatever the client sends, a page has at least one and at most 200 rows.
pub take_bounds :
    (args : PaginationArgs)
    → (1 ≤ (to_prisma_pagination args).take) × ((to_prisma_pagination args).take ≤ max_page_size)
unfolding to_prisma_pagination
take_bounds args = min_bounds (at_least 1 50 args.take) (at_least_lem 1 50 args.take)

-- Arguments within the declared bounds are passed on as they are.
pub take_valid :
    (n m : ℕ)
    → 1 ≤ n
    → n ≤ max_page_size
    → to_prisma_pagination (record { take = some (pos n); skip = some (pos m) })
      ≡ record { take = n; skip = m }
unfolding to_prisma_pagination
take_valid n m low high =
    let take_eq : min (max n 1) 200 ≡ n = ground arith in
    let skip_eq : max m 0 ≡ m = ground arith in rw (take_eq, skip_eq) refl
