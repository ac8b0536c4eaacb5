-- ===== src/Prelude/Text.antt =====
-- A JavaScript string as its list of UTF-16 code units, with `trim`, `===`, and the identifier pattern.
use Prim.Native.Char.{code}
use Prim.Native.String.{String}
use Prim.Native.Nat.{ℕ}
use mathlib.Core.Path.{◌≡◌, refl}
use mathlib.Core.Logic.{inl, inr, ◌↔◌}
use mathlib.Core.Bool.{Bool, true, false, ◌&&◌, ◌||◌}
use mathlib.Core.List.{List, [], ◌∷◌}
use native.Mathlib.Omega.{arith}
use ros_road_operating_syste.Prelude.Tests.{leb, ◌==◌, if◌then◌else◌, Bool-cases}
use ros_road_operating_syste.Prelude.Lists.{length, all}

abbrev pub Text : Type 0
Text = List ℕ

-- The units of a literal, which is ASCII wherever the source is compared with one.
abbrev pub units : String → Text
units String.[] = []
units (String.◌∷◌ c s) = code c ∷ units s

unfoldable pub text_eq : Text → Text → Bool
text_eq [] [] = true
text_eq (a ∷ s) (b ∷ t) = a == b && text_eq s t
text_eq _ _ = false

pub text_eq_iff : (s t : Text) → (text_eq s t ≡ true) ↔ (s ≡ t)
unfolding text_eq
text_eq_iff [] [] = ground arith
text_eq_iff [] (b ∷ t) = ground arith
text_eq_iff (a ∷ s) [] = ground arith
text_eq_iff (a ∷ s) (b ∷ t) = ground (arith, text_eq_iff s t)

pub text_eq_refl : (s : Text) → text_eq s s ≡ true
text_eq_refl s = (text_eq_iff s s).1 refl

-- The white space and line terminators that `String.prototype.trim` removes.
unfoldable pub is_space : ℕ → Bool
is_space c =
    leb 9 c && leb c 13
    || c == 32
    || c == 160
    || c == 0x1680
    || leb 0x2000 c && leb c 0x200a
    || c == 0x2028
    || c == 0x2029
    || c == 0x202f
    || c == 0x205f
    || c == 0x3000
    || c == 0xfeff

trim_start : Text → Text
trim_start [] = []
trim_start (c ∷ s) = if is_space c then trim_start s else c ∷ s

before_end : ℕ → Text → Text
before_end c [] = if is_space c then [] else c ∷ []
before_end c (d ∷ s) = c ∷ d ∷ s

trim_end : Text → Text
trim_end [] = []
trim_end (c ∷ s) = before_end c (trim_end s)

unfoldable pub trim : Text → Text
unfolding trim_start trim_end before_end is_space
trim s = trim_end (trim_start s)

before_end_fixed : (c : ℕ) (s : Text) → trim_end s ≡ s → trim_end (before_end c s) ≡ before_end c s
unfolding trim_end before_end
before_end_fixed c [] h = ground arith
before_end_fixed c (d ∷ s) h = rw h

trim_end_idempotent : (s : Text) → trim_end (trim_end s) ≡ trim_end s
unfolding trim_end
trim_end_idempotent [] = refl
trim_end_idempotent (c ∷ s) = before_end_fixed c (trim_end s) (trim_end_idempotent s)

start_before_end :
    (c : ℕ) (s : Text) → is_space c ≡ false → trim_start (before_end c s) ≡ before_end c s
unfolding trim_start before_end
start_before_end c [] h = ground arith
start_before_end c (d ∷ s) h = ground arith

start_end_start : (s : Text) → trim_start (trim_end (trim_start s)) ≡ trim_end (trim_start s)
unfolding trim_start trim_end
start_end_start [] = refl
start_end_start (c ∷ s) = elim (Bool-cases (is_space c)) [
  | inl e ↦ rw e (start_end_start s)
  | inr e ↦ rw e (start_before_end c (trim_end s) e)
]

pub trim_idempotent : (s : Text) → trim (trim s) ≡ trim s
unfolding trim
trim_idempotent s = rw (start_end_start s) (trim_end_idempotent (trim_start s))

is_letter_or_digit : ℕ → Bool
is_letter_or_digit c =
    leb b'A' c && leb c b'Z' || leb b'a' c && leb c b'z' || leb b'0' c && leb c b'9'

-- The class `[A-Za-z0-9._:-]`.
unfoldable pub is_id_char : ℕ → Bool
unfolding is_letter_or_digit
is_id_char c = is_letter_or_digit c || c == b'.' || c == b'_' || c == b':' || c == b'-'

-- `/^[A-Za-z0-9][A-Za-z0-9._:-]{least,most}$/`
unfoldable pub matches_id : ℕ → ℕ → Text → Bool
unfolding is_id_char
matches_id least most [] = false
matches_id least most (c ∷ s) =
    is_letter_or_digit c && all is_id_char s && leb least (length s) && leb (length s) most
