-- ===== src/Strconv.antt =====
-- The parts of Go's strconv and strings that internal/provisioning uses: Itoa, Atoi on a 64-bit
-- int, HasPrefix and TrimPrefix.
pub mod Laws
use Prim.Native.Nat.{compare, Ordering}
use Prim.Native.Char.{Char, code}
use Prim.Native.String
use cloudkit_operator.Prelude.{
  ℕ, zero, suc, ◌+◌, ◌-◌, ◌*◌, ◌/◌, ◌%◌, ◌^◌, String, Bool, true, false, ◌&&◌, Option, none, some,
  ltb, leb, if◌then◌else◌, is_present, join_text,
}

-- `negsuc n` is -(n + 1).
pub data ℤ : Type 0 where
  pos : ℕ → ℤ
  negsuc : ℕ → ℤ

abbrev pub max_int : ℕ
max_int = 9223372036854775807

abbrev pub digit_char : ℕ → Char
digit_char zero = "0"
digit_char (suc zero) = "1"
digit_char (suc (suc zero)) = "2"
digit_char (suc (suc (suc zero))) = "3"
digit_char (suc (suc (suc (suc zero)))) = "4"
digit_char (suc (suc (suc (suc (suc zero))))) = "5"
digit_char (suc (suc (suc (suc (suc (suc zero)))))) = "6"
digit_char (suc (suc (suc (suc (suc (suc (suc zero))))))) = "7"
digit_char (suc (suc (suc (suc (suc (suc (suc (suc zero)))))))) = "8"
digit_char _ = "9"

unfoldable pub emit : ℕ → ℕ → String → String
emit zero n out = out
emit (suc fuel) n out =
    let rest = emit fuel (n / 10) (String.◌∷◌ (digit_char (n % 10)) out) in
    if ltb n 10 then String.◌∷◌ (digit_char n) out else rest

-- n + 1 rounds are enough: each one divides by ten
unfoldable pub itoa : ℕ → String
unfolding emit
itoa n = emit (suc n) n ""

-- strconv.Itoa of any int
unfoldable pub format_int : ℤ → String
unfolding itoa
format_int (pos n) = itoa n
format_int (negsuc n) = join_text "-" (itoa (suc n))

unfoldable pub digit_value : Char → Option ℕ
digit_value c = if leb 48 (code c) && leb (code c) 57 then some (code c - 48) else none

unfoldable pub add_digit : ℕ → Option ℕ → Option ℕ
add_digit n none = none
add_digit n (some d) = some (n * 10 + d)

unfoldable pub parse_digits : Option ℕ → String → Option ℕ
parse_digits none s = none
parse_digits (some n) String.[] = some n
parse_digits (some n) (String.◌∷◌ c s) = parse_digits (add_digit n (digit_value c)) s

unsigned : String → Option ℕ
unfolding parse_digits add_digit digit_value
unsigned String.[] = none
unsigned (String.◌∷◌ c s) = parse_digits (some 0) (String.◌∷◌ c s)

in_range_pos : Option ℕ → Option ℤ
in_range_pos none = none
in_range_pos (some n) = if leb n max_int then some (pos n) else none

negated : ℕ → ℤ
negated zero = pos zero
negated (suc n) = negsuc n

in_range_neg : Option ℕ → Option ℤ
unfolding negated
in_range_neg none = none
in_range_neg (some n) = if leb n (suc max_int) then some (negated n) else none

-- Atoi fails on a text with no digit, on any other character than one sign and digits, and on a
-- number that is no 64-bit int.
unfoldable pub atoi : String → Option ℤ
unfolding unsigned in_range_pos in_range_neg
atoi String.[] = none
atoi (String.◌∷◌ c s) = elim (compare (code c) 45) [
  | Ordering.eq ↦ in_range_neg (unsigned s)
  | _ ↦ elim (compare (code c) 43) [
    | Ordering.eq ↦ in_range_pos (unsigned s)
    | _ ↦ in_range_pos (unsigned (String.◌∷◌ c s))
  ]
]

-- the rest of a text behind a prefix
unfoldable pub cut_prefix : String → String → Option String
cut_prefix String.[] s = some s
cut_prefix (String.◌∷◌ c p) String.[] = none
cut_prefix (String.◌∷◌ c p) (String.◌∷◌ d s) =
    let rest = cut_prefix p s in elim (compare (code c) (code d)) [ Ordering.eq ↦ rest | _ ↦ none ]

unfoldable pub has_prefix : String → String → Bool
unfolding cut_prefix is_present
has_prefix s p = is_present (cut_prefix p s)

abbrev or_whole : String → Option String → String
or_whole s none = s
or_whole s (some rest) = rest

unfoldable pub trim_prefix : String → String → String
unfolding cut_prefix
trim_prefix s p = or_whole s (cut_prefix p s)
