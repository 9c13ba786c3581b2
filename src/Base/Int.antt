-- ===== src/Base/Int.antt =====
-- Go's signed `int` and `time.Duration` as integers over the native numbers. Sums and orders go
-- through the two parts of an integer, which are numbers that `omega` reads.
use apigateway_distributed_s.Base.{
  ℕ, suc, ◌+◌, ◌-◌, ◌%◌, ◌^◌, ◌<◌, ◌≤◌, ◌≡◌, Bool, arith, ltb, leb, if◌then◌else◌,
}

-- `negsuc n` is -(n + 1).
pub data ℤ : Type 0 where
  pos : ℕ → ℤ
  negsuc : ℕ → ℤ

abbrev pub pos_part : ℤ → ℕ
pos_part (pos n) = n
pos_part (negsuc n) = 0

abbrev pub neg_part : ℤ → ℕ
neg_part (pos n) = 0
neg_part (negsuc n) = suc n

-- a - b, as an integer.
abbrev pub sub_ℕ : ℕ → ℕ → ℤ
sub_ℕ a b = if leb b a then pos (a - b) else negsuc (b - a - 1)

infixl 65 ◌+ℤ◌ ◌-ℤ◌
infix 50 ◌≤ℤ◌
unfoldable pub ◌+ℤ◌ : ℤ → ℤ → ℤ
a +ℤ b = sub_ℕ (pos_part a + pos_part b) (neg_part a + neg_part b)

unfoldable pub ◌-ℤ◌ : ℤ → ℤ → ℤ
a -ℤ b = sub_ℕ (pos_part a + neg_part b) (neg_part a + pos_part b)

-- What an int of 64 bits holds of an integer: its residue, of which the upper half stands for the
-- negative numbers.
unfoldable pub int64_of : ℕ → ℤ
int64_of m = if ltb m (2 ^ 63) then pos m else sub_ℕ m (2 ^ 64)

unfoldable pub int64 : ℤ → ℤ
unfolding int64_of
int64 (pos n) = int64_of (n % 2 ^ 64)
int64 (negsuc n) = int64_of (2 ^ 64 - 1 - n % 2 ^ 64)

-- An integer that fits is kept.
pub int64-fits : (a : ℤ) → pos_part a < 2 ^ 63 → neg_part a < 2 ^ 63 → int64 a ≡ a
unfolding int64
int64-fits (pos n) h k = let same : n % 2 ^ 64 ≡ n = omega arith in rw same (ground (arith, h))
int64-fits (negsuc n) h k = let same : n % 2 ^ 64 ≡ n = omega arith in rw same (ground (arith, k))

abbrev pub ◌≤ℤ◌ : ℤ → ℤ → Type 0
a ≤ℤ b = pos_part a + neg_part b ≤ pos_part b + neg_part a

abbrev pub ltb_ℤ : ℤ → ℤ → Bool
ltb_ℤ a b = ltb (pos_part a + neg_part b) (pos_part b + neg_part a)

abbrev pub leb_ℤ : ℤ → ℤ → Bool
leb_ℤ a b = leb (pos_part a + neg_part b) (pos_part b + neg_part a)

-- One lemma for each operation lets `omega` work with the operations shut, at any depth.
pub +ℤ_parts :
    (a b : ℤ)
    → pos_part (a +ℤ b) + neg_part a + neg_part b ≡ neg_part (a +ℤ b) + pos_part a + pos_part b
unfolding ◌+ℤ◌
+ℤ_parts a b = ground arith

pub -ℤ_parts :
    (a b : ℤ)
    → pos_part (a -ℤ b) + neg_part a + pos_part b ≡ neg_part (a -ℤ b) + pos_part a + neg_part b
unfolding ◌-ℤ◌
-ℤ_parts a b = ground arith

pub eq_of_parts : (a b : ℤ) → pos_part a + neg_part b ≡ pos_part b + neg_part a → a ≡ b
eq_of_parts a b h = ground arith

pub ruleset int_laws = (arith, +ℤ_parts, -ℤ_parts, eq_of_parts)
