-- ===== src/Prelude/Int.antt =====
-- Go's `int` and `int64` as signed integers over the native numbers. Where the code adds, the sum
-- wraps around at 64 bits; an order goes through the two parts of an integer.
use Prim.Native.Nat.{ℕ, suc, ◌+◌, ◌-◌, ◌*◌, ◌%◌, ◌^◌, ◌≤◌, ◌<◌}
use mathlib.Core.Path.{◌≡◌, refl}
use mathlib.Core.Bool.{Bool, true, false}
use native.Mathlib.Omega.{arith}
use pyairtable_go_services.Prelude.Tests.{ltb, leb, ◌==◌, if◌then◌else◌}

-- `negsuc n` is -(n + 1).
pub data ℤ : Type 0 where
  pos : ℕ → ℤ
  negsuc : ℕ → ℤ

abbrev pub pos_part : ℤ → ℕ
pos_part (pos n) = n
pos_part (negsuc n) = 0

abbrev pub neg_part : ℤ → ℕ
neg_part (pos n) = 0
neg_part (negsuc n) = suc n

abbrev pub ltb_ℤ : ℤ → ℤ → Bool
ltb_ℤ a b = ltb (pos_part a + neg_part b) (pos_part b + neg_part a)

abbrev pub eqb_ℤ : ℤ → ℤ → Bool
eqb_ℤ a b = pos_part a + neg_part b == pos_part b + neg_part a

infix 50 ◌≤ℤ◌
abbrev pub ◌≤ℤ◌ : ℤ → ℤ → Type 0
a ≤ℤ b = pos_part a + neg_part b ≤ pos_part b + neg_part a

-- a - b, as an integer.
abbrev pub sub_ℕ : ℕ → ℕ → ℤ
sub_ℕ a b = if leb b a then pos (a - b) else negsuc (b - a - 1)

abbrev pub int64_max : ℕ
int64_max = 9223372036854775807

-- The integer of 64 bits that is congruent to the given one.
unfoldable pub wrap64 : ℤ → ℤ
wrap64 (pos n) =
    let m = n % 18446744073709551616 in
    if leb m int64_max then pos m else negsuc (18446744073709551615 - m)
wrap64 (negsuc n) =
    let m = n % 18446744073709551616 in
    if leb m int64_max then negsuc m else pos (18446744073709551615 - m)

infixl 65 ◌+ℤ◌ ◌-ℤ◌
unfoldable pub ◌+ℤ◌ : ℤ → ℤ → ℤ
unfolding wrap64
a +ℤ b = wrap64 (sub_ℕ (pos_part a + pos_part b) (neg_part a + neg_part b))

unfoldable pub ◌-ℤ◌ : ℤ → ℤ → ℤ
unfolding wrap64
a -ℤ b = wrap64 (sub_ℕ (pos_part a + neg_part b) (neg_part a + pos_part b))

pub wrap64_of_fits : (a : ℤ) → pos_part a ≤ int64_max → neg_part a ≤ int64_max → wrap64 a ≡ a
unfolding wrap64
wrap64_of_fits (pos n) h k = ground arith
wrap64_of_fits (negsuc n) h k = ground arith

-- A sum or a difference that fits is exact.
pub +ℤ_parts :
    (a b : ℤ)
    → pos_part a + pos_part b ≤ int64_max
    → neg_part a + neg_part b ≤ int64_max
    → pos_part (a +ℤ b) + neg_part a + neg_part b ≡ neg_part (a +ℤ b) + pos_part a + pos_part b
unfolding ◌+ℤ◌
+ℤ_parts a b h k =
    ground (arith, wrap64_of_fits (sub_ℕ (pos_part a + pos_part b) (neg_part a + neg_part b)))

pub -ℤ_parts :
    (a b : ℤ)
    → pos_part a + neg_part b ≤ int64_max
    → neg_part a + pos_part b ≤ int64_max
    → pos_part (a -ℤ b) + neg_part a + pos_part b ≡ neg_part (a -ℤ b) + pos_part a + neg_part b
unfolding ◌-ℤ◌
-ℤ_parts a b h k =
    ground (arith, wrap64_of_fits (sub_ℕ (pos_part a + neg_part b) (neg_part a + pos_part b)))

pub increment_exact : (n : ℕ) → n < int64_max → pos n +ℤ pos 1 ≡ pos (n + 1)
unfolding ◌+ℤ◌ wrap64
increment_exact n h = ground arith

-- A float64: every finite one is an integer over a power of two.
pub data Float64 : Type 0 where
  nan pos_inf neg_inf : Float64
  finite : ℤ → ℕ → Float64

-- `float64(n) < x`; the integers compared are below 2 ^ 53, so their conversion is exact.
abbrev pub int_lt_float : ℤ → Float64 → Bool
int_lt_float n nan = false
int_lt_float n pos_inf = true
int_lt_float n neg_inf = false
int_lt_float n (finite m k) =
    ltb (pos_part n * 2 ^ k + neg_part m) (pos_part m + neg_part n * 2 ^ k)

int64_overflow : pos int64_max +ℤ pos 1 ≡ negsuc int64_max
unfolding ◌+ℤ◌
int64_overflow = refl
