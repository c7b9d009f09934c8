-- ===== src/Prelude/Text.antt =====
-- Texts as the code reads them: trimming, ASCII lower case, splitting, searching, numerals.
use Prim.Native.Nat.{ℕ, zero, suc, ◌/◌, ◌%◌}
use Prim.Native.Char.{Char, code}
use Prim.Native.String
use Prim.Native.String.{String, [], ◌∷◌}
use mathlib.Core.Path.{◌≡◌, refl}
use mathlib.Core.Bool.{Bool, true, ◌&&◌, ◌||◌}
use mathlib.Core.Option.{Option, none, some}
use mathlib.Core.List.{List}
use native.Mathlib.Omega.{arith}
use text.Mathlib.Text.{◌==◌ as str_eq, starts_with}
use text.Mathlib.TextPositions.{starts_with-append}
use ai_content_workflow.Prelude.Tests.{◌==◌, leb, if◌then◌else◌}

-- The concatenation of texts.
infixr 65 ◌<>◌
abbrev pub ◌<>◌ : String → String → String
s <> t = String.◌++◌ s t

-- White space of the ASCII range and the no-break space, as `trim` removes it.
is_space : Char → Bool
is_space c = (leb 9 (code c) && leb (code c) 13) || code c == 32 || code c == 160

trim_start : String → String
trim_start [] = []
trim_start (c ∷ s) = let rest = trim_start s in if is_space c then rest else c ∷ s

-- A text that is empty is dropped with a space before it.
drop_space : Char → String → String
drop_space c [] = if is_space c then [] else c ∷ []
drop_space c (d ∷ s) = c ∷ d ∷ s

trim_end : String → String
trim_end [] = []
trim_end (c ∷ s) = drop_space c (trim_end s)

unfoldable pub trim : String → String
unfolding is_space trim_start drop_space trim_end
trim s = trim_end (trim_start s)

pub trim-empty : trim "" ≡ ""
unfolding trim trim_start trim_end
trim-empty = refl

-- The character at the place in `to` that `c` has in `from`.
translate : String → String → Char → Char
translate (a ∷ from) (b ∷ to) c =
    let rest = translate from to c in if code a == code c then b else rest
translate from to c = c

lower_char : Char → Char
unfolding translate
lower_char c = translate "ABCDEFGHIJKLMNOPQRSTUVWXYZ" "abcdefghijklmnopqrstuvwxyz" c

-- `toLowerCase` on ASCII letters; others are kept.
unfoldable pub to_lower : String → String
unfolding lower_char
to_lower [] = []
to_lower (c ∷ s) = lower_char c ∷ to_lower s

push : String → Char → String
push s c = String.◌++◌ s (c ∷ [])

-- `s.split(sep)` for a separator of one character.
split_from : ℕ → String → String → List String
unfolding push
split_from sep cur [] = List.◌∷◌ cur List.[]
split_from sep cur (c ∷ s) =
    let closed = List.◌∷◌ cur (split_from sep "" s) in
    let longer = split_from sep (push cur c) s in if code c == sep then closed else longer

unfoldable pub split : ℕ → String → List String
unfolding split_from
split sep s = split_from sep "" s

-- `s.includes(t)`
unfoldable pub contains : String → String → Bool
contains [] t = starts_with "" t
contains (c ∷ s) t = starts_with (c ∷ s) t || contains s t

pub contains-append : (t s : String) → contains (t <> s) t ≡ true
contains-append t s = contains_start (t <> s) (starts_with-append t s)
  where
    contains_start : (u : String) → starts_with u t ≡ true → contains u t ≡ true
    contains_start [] h = unfold contains in h
    contains_start (c ∷ u) h = unfold contains in ground arith

-- `s.endsWith(t)`
unfoldable pub ends_with : String → String → Bool
ends_with [] t = str_eq "" t
ends_with (c ∷ s) t = str_eq (c ∷ s) t || ends_with s t

-- The bytes of the UTF-8 encoding.
abbrev pub byte_len : String → ℕ
byte_len s = String.len s

-- What follows the last `@`, if there is one (`slice(lastIndexOf("@") + 1)`).
unfoldable pub after_last : ℕ → String → Option String
after_last sep [] = none
after_last sep (c ∷ s) =
    let rest = after_last sep s in
    elim rest [ some t ↦ some t | none ↦ if code c == sep then some s else none ]

nth_char : String → ℕ → Char → Char
nth_char [] k d = d
nth_char (c ∷ s) zero d = c
nth_char (c ∷ s) (suc k) d = nth_char s k d

-- The digits of `n` before `acc`, with fuel; `n + 1` rounds are enough.
decimal_from : ℕ → ℕ → String → String
unfolding nth_char
decimal_from zero n acc = acc
decimal_from (suc fuel) n acc =
    let longer = nth_char "0123456789" (n % 10) "0" ∷ acc in
    let rest = decimal_from fuel (n / 10) longer in if leb 10 n then rest else longer

-- `String(n)`
unfoldable pub to_decimal : ℕ → String
unfolding decimal_from
to_decimal n = decimal_from (suc n) n ""

-- `s.slice(0, n)`
unfoldable pub take_text : ℕ → String → String
take_text zero s = []
take_text (suc n) [] = []
take_text (suc n) (c ∷ s) = c ∷ take_text n s

-- `s.slice(n)`
unfoldable pub drop_text : ℕ → String → String
drop_text zero s = s
drop_text (suc n) [] = []
drop_text (suc n) (c ∷ s) = drop_text n s
