-- ===== src/Common/Integers.antt =====
-- The whole numbers, `pos n` for n and `negsuc n` for -(n + 1), and their order.
use mathlib.Core.Path.{◌≡◌, refl}
use mathlib.Core.Bool.{Bool, true, false}
use native.Mathlib.Omega.{arith}
use Prim.Native.Nat.{ℕ}
use mercury_cortex_core.Common.Logic.{leb}

pub data ℤ : Type 0 where
  pos negsuc : ℕ → ℤ

abbrev pub le_int : ℤ → ℤ → Bool
le_int (pos a) (pos b) = leb a b
le_int (pos a) (negsuc b) = false
le_int (negsuc a) (pos b) = true
le_int (negsuc a) (negsuc b) = leb b a

pub le_int_refl : (a : ℤ) → le_int a a ≡ true
le_int_refl (pos a) = ground arith
le_int_refl (negsuc a) = ground arith

pub le_int_total : (a b : ℤ) → le_int a b ≡ false → le_int b a ≡ true
le_int_total (pos a) (pos b) h = ground arith
le_int_total (pos a) (negsuc b) h = refl
le_int_total (negsuc a) (pos b) h = cc h
le_int_total (negsuc a) (negsuc b) h = ground arith

pub le_int_trans : (a b c : ℤ) → le_int a b ≡ true → le_int b c ≡ true → le_int a c ≡ true
le_int_trans (pos a) (pos b) (pos c) h k = ground arith
le_int_trans (pos a) (pos b) (negsuc c) h k = cc k
le_int_trans (pos a) (negsuc b) c h k = cc h
le_int_trans (negsuc a) (pos b) (pos c) h k = refl
le_int_trans (negsuc a) (pos b) (negsuc c) h k = cc k
le_int_trans (negsuc a) (negsuc b) (pos c) h k = refl
le_int_trans (negsuc a) (negsuc b) (negsuc c) h k = ground arith
