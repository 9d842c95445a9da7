-- ===== src/Http/Text.antt =====
-- The string functions that protocols/http.cpp uses: `trim`, `std::stoi`, `std::to_string`, `strncmp`
-- on a literal, and `memchr` on a text.
use small_rpc.Prelude.{
  ℕ, zero, suc, ◌+◌, ◌-◌, ◌*◌, ◌/◌, ◌%◌, ◌^◌, Bool, true, false, not, ◌&&◌, ◌||◌, [], ◌∷◌, Bytes,
  Option, none, some, ltb, leb, ◌==◌, if◌then◌else◌, ℤ, pos, negsuc, Run, returns, fault,
}

-- The same bytes.
unfoldable pub same_bytes : Bytes → Bytes → Bool
same_bytes [] [] = true
same_bytes (x ∷ xs) (y ∷ ys) = x == y && same_bytes xs ys
same_bytes _ _ = false

-- `strncmp(text, literal, strlen(literal)) == 0` on the memory behind a pointer: the comparison stops
-- at the first difference, and running off the memory before that is a fault.
unfoldable pub starts_with : Bytes → Bytes → Run Bool
starts_with mem [] = returns true
starts_with [] (y ∷ literal) = fault
starts_with (x ∷ mem) (y ∷ literal) =
    let later = starts_with mem literal in if x == y then later else returns false

-- The part of a text before the first `c`, and the part behind it.
unfoldable pub split_at : ℕ → Bytes → Option (Bytes × Bytes)
split_at c [] = none
split_at c (x ∷ xs) =
    let later = split_at c xs in
    if x == c
    then some ([], xs)
    else elim later [ none ↦ none | some (before, behind) ↦ some (x ∷ before, behind) ]

-- `trim`: the spaces in front and at the end go.
unfoldable pub trim_left : Bytes → Bytes
trim_left [] = []
trim_left (c ∷ s) = if c == b' ' then trim_left s else c ∷ s

unfoldable pub trim_right : Bytes → Bytes
trim_right [] = []
trim_right (c ∷ s) = elim (trim_right s) [
  | [] ↦ if c == b' ' then [] else c ∷ []
  | d ∷ t ↦ c ∷ d ∷ t
]

unfoldable pub trim : Bytes → Bytes
trim s = trim_right (trim_left s)

unfoldable pub is_empty : Bytes → Bool
is_empty [] = true
is_empty (c ∷ s) = false

-- `std::stoi`: leading white space, a sign, and the longest run of digits; `none` is one of its
-- exceptions, no digits or a value that `int` cannot hold.
unfoldable pub is_digit : ℕ → Bool
is_digit c = leb b'0' c && leb c b'9'

unfoldable pub is_space : ℕ → Bool
is_space c = c == b' ' || (leb 9 c && leb c 13)

unfoldable pub digits_value : ℕ → Bytes → ℕ
digits_value n [] = n
digits_value n (c ∷ s) =
    let later = digits_value (n * 10 + (c - b'0')) s in if is_digit c then later else n

unfoldable pub skip_space : Bytes → Bytes
skip_space [] = []
skip_space (c ∷ s) = if is_space c then skip_space s else c ∷ s

unfoldable pub starts_digit : Bytes → Bool
starts_digit [] = false
starts_digit (c ∷ s) = is_digit c

-- The digits, with the sign in front of them already read.
unfoldable pub signed_value : Bool → Bytes → Option ℤ
signed_value minus s =
    let n = digits_value 0 s in
    if not (starts_digit s)
    then none
    else if minus
    then (if ltb (2 ^ 31) n then none else if n == 0 then some (pos 0) else some (negsuc (n - 1)))
    else if ltb n (2 ^ 31)
    then some (pos n)
    else none

unfoldable pub after_sign : Bytes → Option ℤ
after_sign [] = none
after_sign (c ∷ s) =
    if c == b'-'
    then signed_value true s
    else if c == b'+'
    then signed_value false s
    else signed_value false (c ∷ s)

unfoldable pub stoi : Bytes → Option ℤ
stoi s = after_sign (skip_space s)

-- `std::to_string` of a `size_t`: with fuel for more digits than 64 bits have.
unfoldable pub digits_onto : ℕ → ℕ → Bytes → Bytes
digits_onto zero n out = out
digits_onto (suc fuel) n out =
    let later = digits_onto fuel (n / 10) ((b'0' + n % 10) ∷ out) in
    if ltb n 10 then (b'0' + n) ∷ out else later

unfoldable pub decimal : ℕ → Bytes
decimal n = digits_onto 20 n []
