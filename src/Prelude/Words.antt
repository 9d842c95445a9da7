-- ===== src/Prelude/Words.antt =====
-- Machine words: `size_t` is 64 bits wide, `int` and `uint32_t` are 32.
use Prim.Native.Nat.{ℕ, suc, ◌+◌, ◌-◌, ◌*◌, ◌/◌, ◌%◌, ◌^◌, ◌<◌}
use mathlib.Core.Path.{◌≡◌, refl}
use mathlib.Core.Bool.{Bool, true, false}
use mathlib.Core.List.{List, [], ◌∷◌}
use native.Mathlib.Omega.{arith}
use small_rpc.Prelude.Lists.{length}
use small_rpc.Prelude.Tests.{ltb, if◌then◌else◌}

-- `size_t` arithmetic wraps.
abbrev pub add64 : ℕ → ℕ → ℕ
add64 a b = (a + b) % 2 ^ 64

abbrev pub sub64 : ℕ → ℕ → ℕ
sub64 a b = (a + 2 ^ 64 - b) % 2 ^ 64

abbrev pub add32 : ℕ → ℕ → ℕ
add32 a b = (a + b) % 2 ^ 32

-- `negsuc n` is -(n + 1).
pub data ℤ : Type 0 where
  pos : ℕ → ℤ
  negsuc : ℕ → ℤ

-- A `size_t` cast to `int`.
abbrev pub int_of : ℕ → ℤ
int_of n = if ltb (n % 2 ^ 32) (2 ^ 31) then pos (n % 2 ^ 32) else negsuc (2 ^ 32 - n % 2 ^ 32 - 1)

abbrev pub ltb_ℤ : ℤ → ℤ → Bool
ltb_ℤ (pos a) (pos b) = ltb a b
ltb_ℤ (pos a) (negsuc b) = false
ltb_ℤ (negsuc a) (pos b) = true
ltb_ℤ (negsuc a) (negsuc b) = ltb b a

pub int_of_small : (n : ℕ) → n < 2 ^ 31 → int_of n ≡ pos n
int_of_small n h = ground arith

-- The four bytes of a 32-bit word in network order, and the word that four bytes stand for.
unfoldable pub be_bytes : ℕ → List ℕ
be_bytes n = (n / 2 ^ 24 % 256) ∷ (n / 2 ^ 16 % 256) ∷ (n / 2 ^ 8 % 256) ∷ (n % 256) ∷ []

unfoldable pub be_word : List ℕ → ℕ
be_word (a ∷ b ∷ c ∷ d ∷ []) = a * 2 ^ 24 + b * 2 ^ 16 + c * 2 ^ 8 + d
be_word _ = 0

pub be_word-be_bytes : (n : ℕ) → n < 2 ^ 32 → be_word (be_bytes n) ≡ n
unfolding be_word be_bytes
be_word-be_bytes n h = omega arith

pub length-be_bytes : (n : ℕ) → 4 ≡ length (be_bytes n)
unfolding be_bytes
length-be_bytes n = refl

-- Signed numbers by their two parts.
abbrev pub pos_part : ℤ → ℕ
pos_part (pos n) = n
pos_part (negsuc n) = 0

abbrev pub neg_part : ℤ → ℕ
neg_part (pos n) = 0
neg_part (negsuc n) = suc n

-- a - b, as an integer.
abbrev pub sub_ℕ : ℕ → ℕ → ℤ
sub_ℕ a b = if ltb a b then negsuc (b - a - 1) else pos (a - b)

infixl 65 ◌+ℤ◌ ◌-ℤ◌
unfoldable pub ◌+ℤ◌ : ℤ → ℤ → ℤ
a +ℤ b = sub_ℕ (pos_part a + pos_part b) (neg_part a + neg_part b)

unfoldable pub ◌-ℤ◌ : ℤ → ℤ → ℤ
a -ℤ b = sub_ℕ (pos_part a + neg_part b) (neg_part a + pos_part b)

-- Times, divided by and modulo a positive number; the quotient is truncated, as in C++.
unfoldable pub times : ℤ → ℕ → ℤ
times a k = sub_ℕ (pos_part a * k) (neg_part a * k)

unfoldable pub quotient : ℤ → ℕ → ℤ
quotient a k = sub_ℕ (pos_part a / k) (neg_part a / k)

unfoldable pub remainder : ℤ → ℕ → ℤ
remainder a k = sub_ℕ (pos_part a % k) (neg_part a % k)

-- A `long` cast to `int`.
unfoldable pub int_of_long : ℤ → ℤ
int_of_long (pos n) = int_of n
int_of_long (negsuc n) = int_of (2 ^ 32 - suc n % 2 ^ 32)

pub eq_of_parts : (a b : ℤ) → pos_part a + neg_part b ≡ pos_part b + neg_part a → a ≡ b
eq_of_parts a b h = ground arith

pub +ℤ_parts :
    (a b : ℤ)
    → pos_part (a +ℤ b) + neg_part a + neg_part b ≡ neg_part (a +ℤ b) + pos_part a + pos_part b
unfolding ◌+ℤ◌
+ℤ_parts a b = ground arith

pub -ℤ_parts :
    (a b : ℤ)
    → pos_part (a -ℤ b) + neg_part a + pos_part b ≡ neg_part (a -ℤ b) + pos_part a + neg_part b
unfolding ◌-ℤ◌
-ℤ_parts a b = ground arith

pub times_parts :
    (a : ℤ) (k : ℕ) → pos_part (times a k) + neg_part a * k ≡ neg_part (times a k) + pos_part a * k
unfolding times
times_parts a k = ground arith
