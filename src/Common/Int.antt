-- ===== src/Common/Int.antt =====
-- Signed integers over the native numbers, under the library's names, and Go's wrap-around at a
-- width. `negsuc n` is -(n + 1).
use Prim.Native.Nat.{ℕ, suc, ◌+◌, ◌-◌, ◌*◌, ◌%◌, ◌/◌, ◌^◌, ◌≤◌, ◌<◌}
use mathlib.Core.Path.{◌≡◌}
use mathlib.Core.Logic.{◌↔◌}
use mathlib.Core.Bool.{Bool, true, false}
use native.Mathlib.Nat.{add-zero, div-le_self}
use native.Mathlib.Omega.{arith}
use wazuh_operator.Common.Tests.{ltb, leb, ◌==◌, if◌then◌else◌}

pub data ℤ : Type 0 where
  pos : ℕ → ℤ
  negsuc : ℕ → ℤ

abbrev pub pos_part : ℤ → ℕ
pos_part (pos n) = n
pos_part (negsuc n) = 0

abbrev pub neg_part : ℤ → ℕ
neg_part (pos n) = 0
neg_part (negsuc n) = suc n

-- a - b, as an integer.
abbrev pub sub_ℕ : ℕ → ℕ → ℤ
sub_ℕ a b = if leb b a then pos (a - b) else negsuc (b - a - 1)

infixl 65 ◌+ℤ◌ ◌-ℤ◌
infixl 70 ◌*ℤ◌
infix 50 ◌≤ℤ◌ ◌<ℤ◌
unfoldable pub ◌+ℤ◌ : ℤ → ℤ → ℤ
a +ℤ b = sub_ℕ (pos_part a + pos_part b) (neg_part a + neg_part b)

unfoldable pub ◌-ℤ◌ : ℤ → ℤ → ℤ
a -ℤ b = sub_ℕ (pos_part a + neg_part b) (neg_part a + pos_part b)

unfoldable pub ◌*ℤ◌ : ℤ → ℤ → ℤ
a *ℤ b =
    sub_ℕ (pos_part a * pos_part b + neg_part a * neg_part b)
      (pos_part a * neg_part b + neg_part a * pos_part b)

abbrev pub ◌≤ℤ◌ : ℤ → ℤ → Type 0
a ≤ℤ b = pos_part a + neg_part b ≤ pos_part b + neg_part a

abbrev pub ◌<ℤ◌ : ℤ → ℤ → Type 0
a <ℤ b = pos_part a + neg_part b < pos_part b + neg_part a

abbrev pub ltb_ℤ : ℤ → ℤ → Bool
ltb_ℤ a b = ltb (pos_part a + neg_part b) (pos_part b + neg_part a)

abbrev pub leb_ℤ : ℤ → ℤ → Bool
leb_ℤ a b = leb (pos_part a + neg_part b) (pos_part b + neg_part a)

abbrev pub eqb_ℤ : ℤ → ℤ → Bool
eqb_ℤ a b = pos_part a + neg_part b == pos_part b + neg_part a

pub +ℤ_parts :
    (a b : ℤ)
    → pos_part (a +ℤ b) + neg_part a + neg_part b ≡ neg_part (a +ℤ b) + pos_part a + pos_part b
unfolding ◌+ℤ◌
+ℤ_parts a b = ground arith

pub -ℤ_parts :
    (a b : ℤ)
    → pos_part (a -ℤ b) + neg_part a + pos_part b ≡ neg_part (a -ℤ b) + pos_part a + neg_part b
unfolding ◌-ℤ◌
-ℤ_parts a b = ground arith

pub eq_of_parts : (a b : ℤ) → pos_part a + neg_part b ≡ pos_part b + neg_part a → a ≡ b
eq_of_parts a b h = ground arith

pub eqb_ℤ_iff : (a b : ℤ) → (eqb_ℤ a b ≡ true) ↔ (a ≡ b)
eqb_ℤ_iff a b = ground arith

pub ruleset int_laws = (arith, +ℤ_parts, -ℤ_parts, eq_of_parts)

-- Two's complement: the integer of width w + 1 that is congruent to the exact result.
unfoldable pub wrap : ℕ → ℤ → ℤ
wrap w (pos n) =
    let r = n % (2 * 2 ^ w) in if ltb r (2 ^ w) then pos r else negsuc (2 * 2 ^ w - 1 - r)
wrap w (negsuc n) =
    let r = n % (2 * 2 ^ w) in if ltb r (2 ^ w) then negsuc r else pos (2 * 2 ^ w - 1 - r)

unfoldable pub wrap32 : ℤ → ℤ
unfolding wrap
wrap32 = wrap 31

unfoldable pub wrap64 : ℤ → ℤ
unfolding wrap
wrap64 = wrap 63

abbrev pub IsInt32 : ℤ → Type 0
IsInt32 a = (pos_part a < 2147483648) × (neg_part a ≤ 2147483648)

abbrev pub IsInt64 : ℤ → Type 0
IsInt64 a = (pos_part a < 9223372036854775808) × (neg_part a ≤ 9223372036854775808)

pub wrap32_of_IsInt32 : (a : ℤ) → IsInt32 a → wrap32 a ≡ a
unfolding wrap32
wrap32_of_IsInt32 (pos n) h = ground arith
wrap32_of_IsInt32 (negsuc n) h = ground arith

pub wrap64_of_IsInt64 : (a : ℤ) → IsInt64 a → wrap64 a ≡ a
unfolding wrap64
wrap64_of_IsInt64 (pos n) h = ground arith
wrap64_of_IsInt64 (negsuc n) h = ground arith

-- int32 and int64 arithmetic.
unfoldable pub add32 : ℤ → ℤ → ℤ
add32 a b = wrap32 (a +ℤ b)

unfoldable pub sub32 : ℤ → ℤ → ℤ
sub32 a b = wrap32 (a -ℤ b)

unfoldable pub sub64 : ℤ → ℤ → ℤ
sub64 a b = wrap64 (a -ℤ b)

unfoldable pub add64 : ℤ → ℤ → ℤ
add64 a b = wrap64 (a +ℤ b)

unfoldable pub mul64 : ℤ → ℤ → ℤ
mul64 a b = wrap64 (a *ℤ b)

pub sub32_pos : (a b : ℕ) → a < 2147483648 → b ≤ 2147483648 → sub32 (pos a) (pos b) ≡ sub_ℕ a b
unfolding sub32 ◌-ℤ◌
sub32_pos a b ha hb = ground (arith, wrap32_of_IsInt32 (sub_ℕ a b))

-- int64 division, which truncates towards zero; a divisor of 0 is the caller's to rule out.
abbrev pub abs_ℕ : ℤ → ℕ
abs_ℕ a = pos_part a + neg_part a

abbrev pub is_negative : ℤ → Bool
is_negative (pos n) = false
is_negative (negsuc n) = true

unfoldable pub div64 : ℤ → ℤ → ℤ
div64 a b =
    let q = abs_ℕ a / abs_ℕ b in
    wrap64 (
      if is_negative a
      then if is_negative b then pos q else sub_ℕ 0 q
      else if is_negative b
      then sub_ℕ 0 q
      else pos q)

-- int32(x) of an int64.
unfoldable pub to_int32 : ℤ → ℤ
to_int32 = wrap32

pub sub64_pos :
    (a b : ℕ)
    → a < 9223372036854775808
    → b < 9223372036854775808
    → sub64 (pos a) (pos b) ≡ sub_ℕ a b
unfolding sub64 ◌-ℤ◌
sub64_pos a b ha hb = ground (arith, wrap64_of_IsInt64 (sub_ℕ a b))

pub mul64_pos : (a b : ℕ) → a * b < 9223372036854775808 → mul64 (pos a) (pos b) ≡ pos (a * b)
unfolding mul64 ◌*ℤ◌
mul64_pos a b h = ground (arith, wrap64_of_IsInt64 (pos (a * b)))

pub div64_pos : (a b : ℕ) → a < 9223372036854775808 → div64 (pos a) (pos b) ≡ pos (a / b)
unfolding div64
div64_pos a b h =
    rw (add-zero a, add-zero b)
      (wrap64_of_IsInt64 (pos (a / b)) (omega (arith, div-le_self a b), omega arith))

pub to_int32_small : (a : ℕ) → a < 2147483648 → to_int32 (pos a) ≡ pos a
unfolding to_int32
to_int32_small a h = wrap32_of_IsInt32 (pos a) (omega arith)

-- int32 multiplication and division.
unfoldable pub mul32 : ℤ → ℤ → ℤ
mul32 a b = wrap32 (a *ℤ b)

unfoldable pub div32 : ℤ → ℤ → ℤ
div32 a b =
    let q = abs_ℕ a / abs_ℕ b in
    wrap32 (
      if is_negative a
      then if is_negative b then pos q else sub_ℕ 0 q
      else if is_negative b
      then sub_ℕ 0 q
      else pos q)

pub mul32_pos : (a b : ℕ) → a * b < 2147483648 → mul32 (pos a) (pos b) ≡ pos (a * b)
unfolding mul32 ◌*ℤ◌
mul32_pos a b h = ground (arith, wrap32_of_IsInt32 (pos (a * b)))

pub div32_pos : (a b : ℕ) → a < 2147483648 → div32 (pos a) (pos b) ≡ pos (a / b)
unfolding div32
div32_pos a b h =
    rw (add-zero a, add-zero b)
      (wrap32_of_IsInt32 (pos (a / b)) (omega (arith, div-le_self a b), omega arith))

pub add32_pos : (a b : ℕ) → a + b < 2147483648 → add32 (pos a) (pos b) ≡ pos (a + b)
unfolding add32 ◌+ℤ◌
add32_pos a b h = ground (arith, wrap32_of_IsInt32 (pos (a + b)))
