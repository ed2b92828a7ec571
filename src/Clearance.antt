-- ===== src/Clearance.antt =====
-- src/common/utils/clearance.util.ts: the order of clearance levels.
use iam_access_control_servi.Prelude.{ℕ, ◌≤◌, ◌≡◌, ◌↔◌, Bool, true, arith, leb, leb_iff}
use iam_access_control_servi.Domain.Enums.{ClearanceLevel}

-- `CLEARANCE_RANK`
unfoldable pub clearance_rank : ClearanceLevel → ℕ
clearance_rank ClearanceLevel.public = 0
clearance_rank ClearanceLevel.internal = 1
clearance_rank ClearanceLevel.confidential = 2
clearance_rank ClearanceLevel.secret = 3
clearance_rank ClearanceLevel.top_secret = 4

unfoldable pub meets_clearance : ClearanceLevel → ClearanceLevel → Bool
unfolding clearance_rank
meets_clearance subject required = leb (clearance_rank required) (clearance_rank subject)

-- The order of the levels: `required` is no higher than `subject`.
abbrev pub IsDominated : ClearanceLevel → ClearanceLevel → Type 0
IsDominated required subject = clearance_rank required ≤ clearance_rank subject

pub meets_clearance_iff : (s r : ClearanceLevel) → (meets_clearance s r ≡ true) ↔ IsDominated r s
unfolding meets_clearance
meets_clearance_iff s r = leb_iff _ _

pub IsDominated-antisymm : (a b : ClearanceLevel) → IsDominated a b → IsDominated b a → a ≡ b
unfolding clearance_rank
IsDominated-antisymm a b h k = ground arith
