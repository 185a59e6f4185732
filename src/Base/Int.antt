-- ===== src/Base/Int.antt =====
-- Integers, for differences of clock ticks.
use Prim.Native.Nat.{ℕ, ◌-◌, ◌≤◌}
use native.Mathlib.Omega.{arith}
use mathlib.Core.Logic.{◌↔◌}
use mathlib.Core.Path.{◌≡◌}
use mathlib.Core.Bool.{Bool, true, false}
use scnsim.Base.Eq.{Eq}
use scnsim.Base.Tests.{nat_beq, nat_beq_iff, leb, if◌then◌else◌}

pub data ℤ : Type 0 where
  pos : ℕ → ℤ
  -- `negsuc n` is -(n + 1).
  negsuc : ℕ → ℤ

-- `a - b` of two natural numbers.
unfoldable pub minus_nat : ℕ → ℕ → ℤ
minus_nat a b = if leb b a then pos (a - b) else negsuc (b - a - 1)

infix 40 ◌≤ℤ◌
abbrev pub ◌≤ℤ◌ : ℤ → ℤ → Type 0
pos a ≤ℤ pos b = a ≤ b
pos a ≤ℤ negsuc b = ⊥
negsuc a ≤ℤ pos b = Unit
negsuc a ≤ℤ negsuc b = b ≤ a

pub minus_nat-le : (a b origin : ℕ) → a ≤ b → minus_nat a origin ≤ℤ minus_nat b origin
unfolding minus_nat
minus_nat-le a b origin h = ground arith

pub le_trans : (a b c : ℤ) → a ≤ℤ b → b ≤ℤ c → a ≤ℤ c
le_trans (pos a) (pos b) (pos c) h g = omega (arith, h, g)
le_trans (pos a) (pos b) (negsuc c) h g = g
le_trans (pos a) (negsuc b) c h g = absurd h
le_trans (negsuc a) b (pos c) h g = tt
le_trans (negsuc a) (pos b) (negsuc c) h g = absurd g
le_trans (negsuc a) (negsuc b) (negsuc c) h g = omega (arith, h, g)

unfoldable pub int_beq : ℤ → ℤ → Bool
int_beq (pos a) (pos b) = nat_beq a b
int_beq (negsuc a) (negsuc b) = nat_beq a b
int_beq _ _ = false

pub int_beq_iff : (a b : ℤ) → (int_beq a b ≡ true) ↔ (a ≡ b)
unfolding int_beq
int_beq_iff (pos a) (pos b) = ground (arith, nat_beq_iff a b)
int_beq_iff (pos a) (negsuc b) = ground arith
int_beq_iff (negsuc a) (pos b) = ground arith
int_beq_iff (negsuc a) (negsuc b) = ground (arith, nat_beq_iff a b)

instance abbrev pub int_eq : Eq ℤ
int_eq = record { beq = int_beq; beq_iff = int_beq_iff }
