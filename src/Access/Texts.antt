-- ===== src/Access/Texts.antt =====
-- The uses of `indexOf`, `slice`, `split` and `toLowerCase` on headers and names, on the characters
-- of a text; a separator is the code of a character.
use Prim.Native.Char.{Char, code}
use Prim.Native.String
use Prim.Native.String.{String}
use iam_access_control_servi.Prelude.{
  ℕ, ◌+◌, ◌-◌, ◌≡◌, ◌≢◌, ◌↔◌, refl, subst, true, false, ◌&&◌, Option, none, some, arith, leb,
  nat_eq, nat_eq_iff, if◌then◌else◌, ◌⊎◌, inl, inr, ap, sym, ◌∙◌, Bool-cases, Option-cases,
}
use text.Mathlib.TextLemmas.{cons-append, nil-append}

abbrev with_first : Char → Option (String × String) → Option (String × String)
with_first c none = none
with_first c (some (before, after)) = some (String.◌∷◌ c before, after)

-- What stands before and after the first separator.
unfoldable pub split_first : ℕ → String → Option (String × String)
split_first separator String.[] = none
split_first separator (String.◌∷◌ c s) =
    let later = split_first separator s in
    if nat_eq (code c) separator then some ("", s) else with_first c later

-- `s.split(separator)[0]`
unfoldable pub before_first : ℕ → String → String
unfolding split_first
before_first separator s = elim (split_first separator s) [ none ↦ s | some parts ↦ parts.0 ]

-- `s.split(separator)[1]`
unfoldable pub second_part : ℕ → String → Option String
unfolding before_first
second_part separator s = elim (split_first separator s) [
  | none ↦ none
  | some parts ↦ some (before_first separator parts.1)
]

-- `toLowerCase` on ASCII; no other character becomes one of the letters of "bearer".
unfoldable pub to_lower : String → String
to_lower String.[] = ""
to_lower (String.◌∷◌ c s) =
    let rest = to_lower s in
    if leb b'A' (code c) && leb (code c) b'Z'
    then String.◌++◌ (String.slice "abcdefghijklmnopqrstuvwxyz" (code c - b'A') (code c - b'A' + 1))
        rest
    else String.◌∷◌ c rest

-- No character of the text is the separator.
abbrev pub IsFree : ℕ → String → Type 0
IsFree separator String.[] = Unit
IsFree separator (String.◌∷◌ c s) = (code c ≢ separator) × IsFree separator s

-- A text without the separator is what stands before it.
pub split_first-append :
    (separator : ℕ) (c : Char) (a b : String)
    → code c ≡ separator
    → IsFree separator a
    → split_first separator (String.◌++◌ a (String.◌∷◌ c b)) ≡ some (a, b)
unfolding split_first
split_first-append separator c String.[] b at free =
    let here : nat_eq (code c) separator ≡ true = (nat_eq_iff (code c) separator).1 at in
    rw (nil-append (String.◌∷◌ c b), here) refl
split_first-append separator c (String.◌∷◌ d a) b at (other, free) =
    let passed : nat_eq (code d) separator ≡ false =
      ground (arith, nat_eq_iff (code d) separator) in
    rw (cons-append d a (String.◌∷◌ c b), passed, split_first-append separator c a b at free) refl

-- A text without the separator is not split.
pub split_first-IsFree :
    (separator : ℕ) (a : String) → IsFree separator a → split_first separator a ≡ none
unfolding split_first
split_first-IsFree separator String.[] free = refl
split_first-IsFree separator (String.◌∷◌ d a) (other, free) =
    let passed : nat_eq (code d) separator ≡ false =
      ground (arith, nat_eq_iff (code d) separator) in
    rw (passed, split_first-IsFree separator a free) refl

-- What stands before the first separator, or the whole text where there is none.
abbrev pub IsBefore : ℕ → String → String → Type 0
IsBefore separator s head =
    IsFree separator head
    × ((s ≡ head)
        ⊎ ((c : Char) × (rest : String) × (code c ≡ separator)
            × (s ≡ String.◌++◌ head (String.◌∷◌ c rest))))

-- A split: a text without the separator, or the two parts around its first one.
abbrev Splits : ℕ → String → Option (String × String) → Type 0
Splits separator s none = IsFree separator s
Splits separator s (some (before, after)) =
    IsFree separator before
    × ((c : Char) × (code c ≡ separator) × (s ≡ String.◌++◌ before (String.◌∷◌ c after)))

with_first-Splits :
    (separator : ℕ) (c : Char) (s : String) (parts : Option (String × String))
    → code c ≢ separator
    → Splits separator s parts
    → Splits separator (String.◌∷◌ c s) (with_first c parts)
with_first-Splits separator c s none other free = (other, free)
with_first-Splits separator c s (some (before, after)) other (free, (d, at, e)) =
    ((other, free), (d, at, ap (String.◌∷◌ c) e ∙ sym (cons-append c before (String.◌∷◌ d after))))

split_first-Splits : (separator : ℕ) (s : String) → Splits separator s (split_first separator s)
unfolding split_first
split_first-Splits separator String.[] = tt
split_first-Splits separator (String.◌∷◌ c s) =
    let (to, from) = nat_eq_iff (code c) separator in
    let rest = split_first-Splits separator s in
    elim (Bool-cases (nat_eq (code c) separator)) [
      | inl here ↦ rw here (tt, (c, to here, sym (nil-append (String.◌∷◌ c s))))
      | inr other ↦
          rw other (
            with_first-Splits separator c s (split_first separator s) (λ e. cc (other, from e))
              rest)
    ]

-- A text splits in one way.
pub before_first_iff :
    (separator : ℕ) (s head : String)
    → (before_first separator s ≡ head) ↔ IsBefore separator s head
unfolding before_first
before_first_iff separator s head = (
  λ h. elim (Option-cases (split_first separator s)) [
    | inl whole ↦
        let free = rw whole at (split_first-Splits separator s) in
        let same : s ≡ head = rw (whole, before_first) at h in
        (subst (IsFree separator) same free, inl same)
    | inr (parts, found) ↦
        let (free, (c, at, e)) = rw found at (split_first-Splits separator s) in
        let same : parts.0 ≡ head = rw (found, before_first) at h in
        subst (IsBefore separator s) same (free, inr (c, parts.1, at, e))
  ],
  λ (free, shape). elim shape [
    | inl whole ↦ rw (whole, split_first-IsFree separator head free, before_first) whole
    | inr (c, rest, at, e) ↦
        rw (e, split_first-append separator c head rest at free, before_first) refl
  ],
)
