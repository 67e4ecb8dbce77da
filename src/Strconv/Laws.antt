-- ===== src/Strconv/Laws.antt =====
-- Atoi reads back what Itoa writes, and a prefix that was put before a text is found and cut off.

use Prim.Native.Char.{code}
use Prim.Native.String.append
use text.Mathlib.TextPositions.{compare_self}
use cloudkit_operator.Prelude.{
  ℕ, zero, suc, ◌+◌, ◌*◌, ◌/◌, ◌%◌, ◌≤◌, ◌<◌, String, ◌≡◌, refl, ap, inl, inr, true, some, arith,
  ltb, Bool-cases, join_text,
}
use cloudkit_operator.Strconv.{
  pos, max_int, digit_char, digit_value, emit, itoa, add_digit, parse_digits, atoi, in_range_pos,
  cut_prefix, has_prefix, trim_prefix,
}

digit_value-digit_char : (d : ℕ) → d < 10 → digit_value (digit_char d) ≡ some d
unfolding digit_value
digit_value-digit_char zero h = refl
digit_value-digit_char (suc zero) h = refl
digit_value-digit_char (suc (suc zero)) h = refl
digit_value-digit_char (suc (suc (suc zero))) h = refl
digit_value-digit_char (suc (suc (suc (suc zero)))) h = refl
digit_value-digit_char (suc (suc (suc (suc (suc zero))))) h = refl
digit_value-digit_char (suc (suc (suc (suc (suc (suc zero)))))) h = refl
digit_value-digit_char (suc (suc (suc (suc (suc (suc (suc zero))))))) h = refl
digit_value-digit_char (suc (suc (suc (suc (suc (suc (suc (suc zero)))))))) h = refl
digit_value-digit_char (suc (suc (suc (suc (suc (suc (suc (suc (suc zero))))))))) h = refl
digit_value-digit_char (suc (suc (suc (suc (suc (suc (suc (suc (suc (suc d)))))))))) h =
    absurd (omega arith)

parse_digit :
    (n d r : ℕ) (s : String)
    → d < 10
    → n * 10 + d ≡ r
    → parse_digits (some n) (String.◌∷◌ (digit_char d) s) ≡ parse_digits (some r) s
unfolding parse_digits add_digit
parse_digit n d r s h e = rw (parse_digits, digit_value-digit_char d h, e)

parse-emit :
    (fuel n : ℕ) (out : String)
    → n < fuel
    → parse_digits (some 0) (emit fuel n out) ≡ parse_digits (some n) out
unfolding emit
parse-emit zero n out h = elim h [ ]
parse-emit (suc fuel) n out h = elim (Bool-cases (ltb n 10)) [
  | inl small ↦ rw small (parse_digit 0 n n out (ground arith) (omega arith))
  | inr large ↦
      rw (large, parse-emit fuel (n / 10) (String.◌∷◌ (digit_char (n % 10)) out) (ground arith))
        (parse_digit (n / 10) (n % 10) n out (omega arith) (omega arith))
]

-- what Itoa writes begins with a digit, and so with no sign
emit_head :
    (fuel n : ℕ) (out : String)
    → n < fuel
    → (d : ℕ) × (rest : String) × (d < 10) × (emit fuel n out ≡ String.◌∷◌ (digit_char d) rest)
unfolding emit
emit_head zero n out h = elim h [ ]
emit_head (suc fuel) n out h = elim (Bool-cases (ltb n 10)) [
  | inl small ↦ (n, out, ground arith, rw small)
  | inr large ↦
      rw large (emit_head fuel (n / 10) (String.◌∷◌ (digit_char (n % 10)) out) (ground arith))
]

atoi_digit :
    (d : ℕ) (s : String)
    → d < 10
    → atoi (String.◌∷◌ (digit_char d) s)
      ≡ in_range_pos (parse_digits (some 0) (String.◌∷◌ (digit_char d) s))
unfolding atoi
atoi_digit zero s h = refl
atoi_digit (suc zero) s h = refl
atoi_digit (suc (suc zero)) s h = refl
atoi_digit (suc (suc (suc zero))) s h = refl
atoi_digit (suc (suc (suc (suc zero)))) s h = refl
atoi_digit (suc (suc (suc (suc (suc zero))))) s h = refl
atoi_digit (suc (suc (suc (suc (suc (suc zero)))))) s h = refl
atoi_digit (suc (suc (suc (suc (suc (suc (suc zero))))))) s h = refl
atoi_digit (suc (suc (suc (suc (suc (suc (suc (suc zero)))))))) s h = refl
atoi_digit (suc (suc (suc (suc (suc (suc (suc (suc (suc zero))))))))) s h = refl
atoi_digit (suc (suc (suc (suc (suc (suc (suc (suc (suc (suc d)))))))))) s h = absurd (omega arith)

in_range : (n : ℕ) → n ≤ max_int → in_range_pos (parse_digits (some n) "") ≡ some (pos n)
unfolding in_range_pos parse_digits
in_range n h = ground arith

-- Atoi reads back every int that Itoa writes.
pub atoi-itoa : (n : ℕ) → n ≤ max_int → atoi (itoa n) ≡ some (pos n)
unfolding itoa
atoi-itoa n h =
    let (d, rest, digit, shape) = emit_head (suc n) n "" (omega arith) in
    let parsed = parse-emit (suc n) n "" (omega arith) in
    rw (shape, atoi_digit d rest digit, ← shape, parsed) (in_range n h)

cut_prefix-join : (p s : String) → cut_prefix p (join_text p s) ≡ some s
unfolding cut_prefix
cut_prefix-join String.[] s = ap some (append.nil s)
cut_prefix-join (String.◌∷◌ c p) s =
    rw (append.cons c p s, cut_prefix, compare_self (code c)) (cut_prefix-join p s)

pub has_prefix-join : (p s : String) → has_prefix (join_text p s) p ≡ true
unfolding has_prefix
has_prefix-join p s = rw cut_prefix-join

pub trim_prefix-join : (p s : String) → trim_prefix (join_text p s) p ≡ s
unfolding trim_prefix
trim_prefix-join p s = rw cut_prefix-join
