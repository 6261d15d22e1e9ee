-- ===== src/Base/Ints.antt =====
-- Signed integers over the native numbers, with the wrap-around of int64.
use ol1n_super_app.Base.{
  ℕ, suc, ◌+◌, ◌-◌, ◌%◌, ◌^◌, ◌≤◌, ◌<◌, ◌≡◌, Bool, false, arith, ltb, leb, if◌then◌else◌,
}

-- `negsuc n` is -(n + 1).
pub data ℤ : Type 0 where
  pos : ℕ → ℤ
  negsuc : ℕ → ℤ

abbrev pub pos_part : ℤ → ℕ
pos_part (pos n) = n
pos_part (negsuc n) = 0

abbrev pub neg_part : ℤ → ℕ
neg_part (pos n) = 0
neg_part (negsuc n) = suc n

-- a - b, as an integer.
abbrev pub sub_ℕ : ℕ → ℕ → ℤ
sub_ℕ a b = if leb b a then pos (a - b) else negsuc (b - a - 1)

infixl 65 ◌+ℤ◌ ◌-ℤ◌
unfoldable pub ◌+ℤ◌ : ℤ → ℤ → ℤ
a +ℤ b = sub_ℕ (pos_part a + pos_part b) (neg_part a + neg_part b)

unfoldable pub ◌-ℤ◌ : ℤ → ℤ → ℤ
a -ℤ b = sub_ℕ (pos_part a + neg_part b) (neg_part a + pos_part b)

abbrev pub is_positive : ℤ → Bool
is_positive (pos n) = ltb 0 n
is_positive (negsuc n) = false

-- The int64 that has the same bits.
unfoldable pub int64 : ℤ → ℤ
int64 (pos n) =
    if ltb (n % 2 ^ 64) (2 ^ 63) then pos (n % 2 ^ 64) else negsuc (2 ^ 64 - 1 - n % 2 ^ 64)
int64 (negsuc n) =
    if ltb (n % 2 ^ 64) (2 ^ 63) then negsuc (n % 2 ^ 64) else pos (2 ^ 64 - 1 - n % 2 ^ 64)

pub int64_id : (n : ℕ) → n < 2 ^ 63 → int64 (pos n) ≡ pos n
unfolding int64
int64_id n h = ground arith

pub int64_end :
    (b n : ℕ) → 1 ≤ b → b + n ≤ 2 ^ 63 → int64 (pos b +ℤ pos n -ℤ pos 1) ≡ pos (b + n - 1)
unfolding int64 ◌+ℤ◌ ◌-ℤ◌
int64_end b n h k = ground arith
