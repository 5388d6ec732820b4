-- ===== src/Base/Int.antt =====
-- Signed integers over the native numbers, and the machine integers of C (two's complement).
use unifesp_sd.Base.Tests.{ltb, leb, ◌==◌, if◌then◌else◌}
use Prim.Native.Nat.{◌<◌, ℕ, suc, ◌+◌, ◌-◌, ◌*◌, ◌%◌, ◌^◌, ◌≤◌}
use mathlib.Core.Path.{◌≡◌, refl}
use mathlib.Core.Logic.{◌↔◌}
use mathlib.Core.Bool.{Bool, true}
use native.Mathlib.Omega.{arith}

-- `negsuc n` is -(n + 1).
pub data ℤ : Type 0 where
  pos : ℕ → ℤ
  negsuc : ℕ → ℤ

abbrev pub pos_part : ℤ → ℕ
pos_part (pos n) = n
pos_part (negsuc n) = 0

abbrev pub neg_part : ℤ → ℕ
neg_part (pos n) = 0
neg_part (negsuc n) = suc n

-- a - b, as an integer.
abbrev pub sub_ℕ : ℕ → ℕ → ℤ
sub_ℕ a b = if leb b a then pos (a - b) else negsuc (b - a - 1)

infixl 65 ◌+ℤ◌
infixl 70 ◌*ℤ◌
infix 50 ◌≤ℤ◌ ◌<ℤ◌ ◌==ℤ◌
unfoldable pub ◌+ℤ◌ : ℤ → ℤ → ℤ
a +ℤ b = sub_ℕ (pos_part a + pos_part b) (neg_part a + neg_part b)

unfoldable pub ◌*ℤ◌ : ℤ → ℤ → ℤ
a *ℤ b =
    sub_ℕ (pos_part a * pos_part b + neg_part a * neg_part b)
      (pos_part a * neg_part b + neg_part a * pos_part b)

abbrev pub ◌≤ℤ◌ : ℤ → ℤ → Type 0
a ≤ℤ b = pos_part a + neg_part b ≤ pos_part b + neg_part a

abbrev pub ◌<ℤ◌ : ℤ → ℤ → Type 0
a <ℤ b = suc (pos_part a + neg_part b) ≤ pos_part b + neg_part a

abbrev pub ltb_ℤ : ℤ → ℤ → Bool
ltb_ℤ a b = ltb (pos_part a + neg_part b) (pos_part b + neg_part a)

abbrev pub ◌==ℤ◌ : ℤ → ℤ → Bool
a ==ℤ b = (pos_part a + neg_part b) == (pos_part b + neg_part a)

pub eq_of_parts : (a b : ℤ) → pos_part a + neg_part b ≡ pos_part b + neg_part a → a ≡ b
eq_of_parts a b h = ground arith

pub ==ℤ_iff : (a b : ℤ) → ((a ==ℤ b) ≡ true) ↔ (a ≡ b)
==ℤ_iff a b = ground arith

-- The residue `r` below `2 ^ (w + 1)` as a signed word of `w + 1` bits.
abbrev pub com_sinal : ℕ → ℕ → ℤ
com_sinal w r = if ltb r (2 ^ w) then pos r else negsuc (2 ^ suc w - r - 1)

-- The value that a conversion to a signed type of `w + 1` bits stores.
unfoldable pub trunca : ℕ → ℤ → ℤ
trunca w (pos n) = com_sinal w (n % 2 ^ suc w)
trunca w (negsuc n) = com_sinal w (2 ^ suc w - 1 - n % 2 ^ suc w)

-- Conversions to `char` (signed), `int` and `long`.
abbrev pub i8 : ℤ → ℤ
i8 = trunca 7

abbrev pub i32 : ℤ → ℤ
i32 = trunca 31

abbrev pub i64 : ℤ → ℤ
i64 = trunca 63

-- The remainder of C truncates towards zero: it has the sign of the dividend.
unfoldable pub resto : ℤ → ℕ → ℤ
resto (pos n) m = pos (n % m)
resto (negsuc n) m = sub_ℕ 0 (suc n % m)

-- A value that an `int` holds.
pub record IsInt (z : ℤ) : Type 0 where
  pub acima : pos_part z ≤ 2 ^ 31 - 1
  pub abaixo : neg_part z ≤ 2 ^ 31

pub i32-IsInt : (z : ℤ) → IsInt (i32 z)
unfolding trunca
i32-IsInt (pos n) = ground arith
i32-IsInt (negsuc n) = ground arith

-- A conversion keeps what fits.
pub i32-eq_of_IsInt : (z : ℤ) → IsInt z → i32 z ≡ z
unfolding trunca
i32-eq_of_IsInt (pos n) h = ground arith
i32-eq_of_IsInt (negsuc n) h = ground arith

-- An `int` that has a successor.
pub record IsCurto (z : ℤ) : Type 0 where
  pub acima : pos_part z < 2 ^ 31 - 1
  pub abaixo : neg_part z ≤ 2 ^ 31

-- A `long` that has a successor.
pub record IsLong (z : ℤ) : Type 0 where
  pub acima : pos_part z < 2 ^ 63 - 1
  pub abaixo : neg_part z ≤ 2 ^ 63

pub i64-suc : (z : ℤ) → IsLong z → i64 (z +ℤ pos 1) ≡ z +ℤ pos 1
unfolding trunca ◌+ℤ◌
i64-suc (pos n) h = ground arith
i64-suc (negsuc n) h = ground arith

i8_minus_one : i8 (pos 255) ≡ negsuc 0
unfolding trunca
i8_minus_one = refl

i32_overflow : i32 (pos (2 ^ 31)) ≡ negsuc (2 ^ 31 - 1)
unfolding trunca
i32_overflow = refl
