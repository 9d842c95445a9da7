-- ===== src/Http/Decimal.antt =====
-- `std::to_string` and `std::stoi`, and the trimming of a header's value.
use small_rpc.Prelude.{
  true, lt→ltb, ℕ, zero, suc, ◌+◌, ◌*◌, ◌/◌, ◌%◌, ◌^◌, ◌≤◌, ◌<◌, ◌≡◌, refl, ap, sym, ◌∙◌, arith,
  Bool-cases, inl, inr, ◌==◌, ne→==, ltb, if◌then◌else◌, [], ◌∷◌, Bytes, length, Lacks, some, pos,
}
use small_rpc.Http.Text.{
  trim, trim_left, trim_right, is_digit, is_space, digits_value, skip_space, starts_digit,
  signed_value, after_sign, stoi, digits_onto, decimal,
}

-- What `fuel` decimal digits can tell.
abbrev pub limit : ℕ → ℕ
limit zero = 1
limit (suc fuel) = 10 * limit fuel

-- Reading the digits that were put in front of others goes on with the number.
digits_value-digits_onto :
    (fuel n : ℕ) (out : Bytes)
    → n < limit fuel
    → digits_value 0 (digits_onto fuel n out) ≡ digits_value n out
unfolding digits_value digits_onto is_digit
digits_value-digits_onto zero n out fits = let none_left : n ≡ 0 = omega arith in rw none_left
digits_value-digits_onto (suc fuel) n out fits = elim (Bool-cases (ltb n 10)) [
  | inl last ↦ rw last (ground arith)
  | inr more ↦
      rw more (
        digits_value-digits_onto fuel (n / 10) ((b'0' + n % 10) ∷ out) (omega arith) ∙ ground arith)
]

-- A text that a digit begins.
abbrev pub StartsDigit : Bytes → Type 0
StartsDigit s = (d : ℕ) × (t : Bytes) × (s ≡ d ∷ t) × (48 ≤ d) × (d ≤ 57)

digits_onto-StartsDigit :
    (fuel n : ℕ) (out : Bytes) → StartsDigit out → StartsDigit (digits_onto fuel n out)
unfolding digits_onto
digits_onto-StartsDigit zero n out starts = starts
digits_onto-StartsDigit (suc fuel) n out starts = elim (Bool-cases (ltb n 10)) [
  | inl last ↦ rw last (b'0' + n, out, refl, omega arith, ground (arith, last))
  | inr more ↦ rw more (
      digits_onto-StartsDigit fuel (n / 10) ((b'0' + n % 10) ∷ out)
        (b'0' + n % 10, out, refl, omega arith, omega arith))
]

pub decimal-StartsDigit : (n : ℕ) → StartsDigit (decimal n)
unfolding decimal digits_onto
decimal-StartsDigit n = elim (Bool-cases (ltb n 10)) [
  | inl last ↦ rw last (b'0' + n, [], refl, omega arith, ground (arith, last))
  | inr more ↦ rw more (
      digits_onto-StartsDigit 19 (n / 10) ((b'0' + n % 10) ∷ [])
        (b'0' + n % 10, [], refl, omega arith, omega arith))
]

digits_onto-Lacks :
    (c fuel n : ℕ) (out : Bytes) → c < 48 → Lacks c out → Lacks c (digits_onto fuel n out)
unfolding digits_onto
digits_onto-Lacks c zero n out small lacks = lacks
digits_onto-Lacks c (suc fuel) n out small lacks = elim (Bool-cases (ltb n 10)) [
  | inl last ↦ rw last (omega arith, lacks)
  | inr more ↦
      rw more (digits_onto-Lacks c fuel (n / 10) ((b'0' + n % 10) ∷ out) small (omega arith, lacks))
]

-- Decimals are digits, whose codes are 48 and more.
pub decimal-Lacks : (c n : ℕ) → c < 48 → Lacks c (decimal n)
unfolding decimal
decimal-Lacks c n small = digits_onto-Lacks c 20 n [] small tt

digits_onto-fits : (fuel n : ℕ) (out : Bytes) → length (digits_onto fuel n out) ≤ fuel + length out
unfolding digits_onto
digits_onto-fits zero n out = omega arith
digits_onto-fits (suc fuel) n out = elim (Bool-cases (ltb n 10)) [
  | inl last ↦ rw last (omega arith)
  | inr more ↦ rw more (omega (arith, digits_onto-fits fuel (n / 10) ((b'0' + n % 10) ∷ out)))
]

pub decimal-fits : (n : ℕ) → length (decimal n) ≤ 20
unfolding decimal
decimal-fits n = digits_onto-fits 20 n []

digits_onto-width :
    (fuel w n : ℕ) (out : Bytes)
    → n < limit (suc w)
    → length (digits_onto fuel n out) ≤ suc w + length out
unfolding digits_onto
digits_onto-width zero w n out small = omega arith
digits_onto-width (suc fuel) zero n out small =
    let last : ltb n 10 ≡ true = lt→ltb n 10 (omega arith) in rw last (omega arith)
digits_onto-width (suc fuel) (suc w) n out small = elim (Bool-cases (ltb n 10)) [
  | inl last ↦ rw last (omega arith)
  | inr more ↦
      rw more
        (omega (arith, digits_onto-width fuel w (n / 10) ((b'0' + n % 10) ∷ out) (omega arith)))
]

-- A number below 10 ^ (w + 1) takes at most w + 1 digits.
pub decimal-width : (w n : ℕ) → n < limit (suc w) → length (decimal n) ≤ suc w
unfolding decimal
decimal-width w n small = omega (arith, digits_onto-width 20 w n [] small)

stoi_digits :
    (d : ℕ) (s : Bytes) {n : ℕ}
    → 48 ≤ d
    → d ≤ 57
    → digits_value 0 (d ∷ s) ≡ n
    → n < 2 ^ 31
    → stoi (d ∷ s) ≡ some (pos n)
unfolding stoi skip_space after_sign signed_value starts_digit is_digit is_space
stoi_digits d s {n} low high value small = ground (arith, value)

-- `std::stoi` reads what `std::to_string` wrote, of a number that `int` can hold.
pub stoi-decimal : (n : ℕ) → n < 2 ^ 31 → stoi (decimal n) ≡ some (pos n)
unfolding digits_value decimal
stoi-decimal n small =
    let (d, s, digits, low, high) = decimal-StartsDigit n in
    let value : digits_value 0 (digits_onto 20 n []) ≡ n =
      digits_value-digits_onto 20 n [] (omega arith) in
    ap stoi digits ∙ stoi_digits d s low high (ap (digits_value 0) (sym digits) ∙ value) small

-- `trim` of a text without spaces behind one.
trim_right_lem : (s : Bytes) → Lacks b' ' s → trim_right s ≡ s
unfolding trim_right
trim_right_lem [] lacks = refl
trim_right_lem (c ∷ []) lacks = rw (ne→== c b' ' lacks.0) refl
trim_right_lem (c ∷ d ∷ s) lacks =
    ap (λ (r : Bytes). elim r [ [] ↦ if c == b' ' then [] else c ∷ [] | e ∷ t ↦ c ∷ e ∷ t ])
      (trim_right_lem (d ∷ s) lacks.1)

trim_left_lem : (s : Bytes) → Lacks b' ' s → trim_left s ≡ s
unfolding trim_left
trim_left_lem [] lacks = refl
trim_left_lem (c ∷ s) lacks = rw (ne→== c b' ' lacks.0) refl

pub trim-Lacks : (s : Bytes) → Lacks b' ' s → trim (b' ' ∷ s) ≡ s
unfolding trim trim_left
trim-Lacks s lacks = ap trim_right (trim_left_lem s lacks) ∙ trim_right_lem s lacks
