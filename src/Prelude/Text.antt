-- ===== src/Prelude/Text.antt =====
-- Texts as the source's strings: template literals, `join`, and the tests of truthiness.
use Prim.Native.Nat.{ℕ, zero, suc, ◌+◌, ◌/◌, ◌%◌}
use Prim.Native.String
use Prim.Native.String.{String}
use mathlib.Core.Bool.{Bool, false, not}
use mathlib.Core.Option.{Option, none, some}
use mathlib.Core.List.{List, [], ◌∷◌}
use text.Mathlib.Text.{◌==◌ as str_eq}
use iam_access_control_servi.Prelude.Tests.{ltb, if◌then◌else◌}

-- A template literal is the concatenation of its pieces.
abbrev pub concat : List String → String
concat [] = ""
concat (s ∷ ss) = String.◌++◌ s (concat ss)

-- `parts.join(separator)`
abbrev pub join : String → List String → String
join separator [] = ""
join separator (s ∷ []) = s
join separator (s ∷ ss) = concat (s ∷ separator ∷ join separator ss ∷ [])

-- A text is falsy exactly when it is empty.
abbrev pub is_blank : String → Bool
is_blank s = str_eq s ""

-- `s || fallback`
abbrev pub or_text : String → String → String
or_text s fallback = if is_blank s then fallback else s

-- `value ?? fallback`
abbrev pub text_or : Option String → String → String
text_or none fallback = fallback
text_or (some s) fallback = s

-- A value that is neither null nor the empty text.
abbrev pub is_truthy : Option String → Bool
is_truthy none = false
is_truthy (some s) = not (is_blank s)

digit : ℕ → String
digit n = String.slice "0123456789" n (n + 1)

-- The digits of a number in front of a text; the fuel is more than the number of digits.
digits_before : ℕ → ℕ → String → String
digits_before zero n rest = rest
digits_before (suc fuel) n rest =
    let more = digits_before fuel (n / 10) (concat (digit (n % 10) ∷ rest ∷ [])) in
    if ltb n 10 then concat (digit n ∷ rest ∷ []) else more

-- A number in a template literal.
unfoldable pub decimal : ℕ → String
unfolding digit digits_before
decimal n = digits_before (n + 1) n ""
