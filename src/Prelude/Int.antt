-- ===== src/Prelude/Int.antt =====
-- Signed integers over the native numbers, and Go's int64 increment with its wrap-around.
use Prim.Native.Nat.{ℕ, zero, suc, ◌+◌, ◌≤◌, ◌<◌}
use mathlib.Core.Path.{◌≡◌, refl}
use mathlib.Core.Logic.{◌↔◌}
use mathlib.Core.Bool.{Bool, true, false}
use native.Mathlib.Omega.{arith}
use tinypanel_hub.Prelude.Tests.{ltb, leb, nat_eq, if◌then◌else◌, Comparable}

-- `negsuc n` is -(n + 1).
pub data ℤ : Type 0 where
  pos : ℕ → ℤ
  negsuc : ℕ → ℤ

abbrev pub pos_part : ℤ → ℕ
pos_part (pos n) = n
pos_part (negsuc n) = 0

abbrev pub neg_part : ℤ → ℕ
neg_part (pos n) = 0
neg_part (negsuc n) = suc n

infix 50 ◌≤ℤ◌ ◌<ℤ◌
abbrev pub ◌≤ℤ◌ : ℤ → ℤ → Type 0
a ≤ℤ b = pos_part a + neg_part b ≤ pos_part b + neg_part a

abbrev pub ◌<ℤ◌ : ℤ → ℤ → Type 0
a <ℤ b = pos_part a + neg_part b < pos_part b + neg_part a

abbrev pub ltb_ℤ : ℤ → ℤ → Bool
ltb_ℤ a b = ltb (pos_part a + neg_part b) (pos_part b + neg_part a)

abbrev pub leb_ℤ : ℤ → ℤ → Bool
leb_ℤ a b = leb (pos_part a + neg_part b) (pos_part b + neg_part a)

abbrev pub eq_ℤ : ℤ → ℤ → Bool
eq_ℤ (pos m) (pos n) = nat_eq m n
eq_ℤ (negsuc m) (negsuc n) = nat_eq m n
eq_ℤ _ _ = false

pub eq_ℤ_iff : (a b : ℤ) → (eq_ℤ a b ≡ true) ↔ (a ≡ b)
eq_ℤ_iff (pos m) (pos n) = ground arith
eq_ℤ_iff (pos m) (negsuc n) = ground arith
eq_ℤ_iff (negsuc m) (pos n) = ground arith
eq_ℤ_iff (negsuc m) (negsuc n) = ground arith

instance abbrev pub eq_int : Comparable ℤ
eq_int = record { same = eq_ℤ; reflects = eq_ℤ_iff }

-- The largest int64.
abbrev pub int64_max : ℤ
int64_max = pos 9223372036854775807

-- `n++` on an int64: the largest value wraps to the smallest.
unfoldable pub succ_int64 : ℤ → ℤ
succ_int64 (pos n) =
    if nat_eq n 9223372036854775807 then negsuc 9223372036854775807 else pos (n + 1)
succ_int64 (negsuc zero) = pos 0
succ_int64 (negsuc (suc n)) = negsuc n

-- Below the largest value the increment adds one.
pub succ_int64_parts :
    (a : ℤ)
    → a <ℤ int64_max
    → pos_part (succ_int64 a) + neg_part a ≡ neg_part (succ_int64 a) + pos_part a + 1
unfolding succ_int64
succ_int64_parts (pos n) h = ground arith
succ_int64_parts (negsuc zero) h = omega arith
succ_int64_parts (negsuc (suc n)) h = omega arith

pub lt-succ_int64 : (a : ℤ) → a <ℤ int64_max → a <ℤ succ_int64 a
lt-succ_int64 a h = omega (arith, succ_int64_parts a h)

pub ne_of_lt_ℤ : (a b : ℤ) → a <ℤ b → eq_ℤ a b ≡ false
ne_of_lt_ℤ (pos m) (pos n) h = ground arith
ne_of_lt_ℤ (pos m) (negsuc n) h = refl
ne_of_lt_ℤ (negsuc m) (pos n) h = refl
ne_of_lt_ℤ (negsuc m) (negsuc n) h = ground arith

pub eq_ℤ_refl : (a : ℤ) → eq_ℤ a a ≡ true
eq_ℤ_refl a = (eq_ℤ_iff a a).1 refl
