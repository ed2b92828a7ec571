-- ===== src/Outcome.antt =====
-- What a call that may throw returns: the NestJS exceptions that the source throws, with their
-- messages, and Prisma's known request errors, with their codes (src/common/filters).
use iam_access_control_servi.Prelude.{
  ◌⊎◌, inl, inr, String, ◌≡◌, refl, Bool, true, false, Option, none, some,
}

pub data Exception : Type 0 where
  bad_request unauthorized forbidden not_found : String → Exception
  known_request : String → Exception
  -- A property of undefined is read.
  type_error : Exception

pub data Outcome {ℓ} (A : Type ℓ) : Type ℓ where
  ok : A → Outcome A
  throw : Exception → Outcome A

-- What comes after a call runs only if the call returned.
infixl 5 ◌>>=◌
abbrev pub ◌>>=◌ {ℓ κ} :
    {Got : Type ℓ} {Next : Type κ} → Outcome Got → (Got → Outcome Next) → Outcome Next
throw e >>= next = throw e
ok got >>= next = next got

-- P2003: a foreign key constraint failed.
abbrev pub foreign_key : Exception
foreign_key = known_request "P2003"

-- Where a chain returns, its first call returned, and so did the rest on what that gave.
pub >>=-eq-ok {ℓ κ} :
    {Got : Type ℓ} {Next : Type κ} (call : Outcome Got) (next : Got → Outcome Next) {last : Next}
    → (call >>= next) ≡ ok last
    → (got : Got) × (call ≡ ok got) × (next got ≡ ok last)
>>=-eq-ok (throw e) next returned = cc
>>=-eq-ok (ok got) next returned = (got, refl, returned)

pub ok-inj : {A : Type 0} {a b : A} → ok a ≡ ok b → a ≡ b
ok-inj h = cc

-- `if (!value) throw e`
unfoldable pub expect {ℓ} : {A : Type ℓ} → Exception → Option A → Outcome A
expect e none = throw e
expect e (some a) = ok a

-- `if (!condition) throw e`
unfoldable pub require : Exception → Bool → Outcome Bool
require e true = ok true
require e false = throw e

pub expect-eq-ok :
    {A : Type 0} (e : Exception) (o : Option A) {a : A} → expect e o ≡ ok a → o ≡ some a
unfolding expect
expect-eq-ok e none h = cc
expect-eq-ok e (some a) h = cc

pub require-eq-ok : (e : Exception) (b : Bool) {c : Bool} → require e b ≡ ok c → b ≡ true
unfolding require
require-eq-ok e true h = refl
require-eq-ok e false h = cc

-- A call throws or returns.
pub Outcome-cases :
    {A : Type 0} (o : Outcome A) → ((e : Exception) × (o ≡ throw e)) ⊎ ((a : A) × (o ≡ ok a))
Outcome-cases (throw e) = inl (e, refl)
Outcome-cases (ok a) = inr (a, refl)
