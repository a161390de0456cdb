-- ===== src/Prelude/Equality.antt =====
-- `==` by instances: numbers by `compare`, texts and options through a decision.
use Prim.Native.Nat.{ℕ}
use mathlib.Core.Path.{◌≡◌, refl}
use mathlib.Core.Logic.{◌↔◌, ite}
use mathlib.Core.Bool.{Bool, true, false}
use mathlib.Core.List.{List}
use native.Mathlib.Omega.{arith}
use native.Mathlib.Decide.{ℕ_discrete}
use agentknock_cli.Prelude.Tests.{nat_beq, nat_beq_iff}

-- A text is its bytes. The decision is shut in proofs, where a split on it yields the equation.
abbrev pub Text : Type 0
Text = List ℕ

unfoldable pub text_discrete : Discrete Text
unfolding ℕ_discrete
text_discrete = hlevel ℕ_discrete

pub text_beq_iff : (a b : Text) → (ite (text_discrete a b) true false ≡ true) ↔ (a ≡ b)
text_beq_iff a b = ground arith

-- The trait `PartialEq`, for types whose equality it decides.
pub record PartialEq {ℓ} (T : Type ℓ) : Type ℓ where
  pub eq : T → T → Bool
  pub eq_sound : (x y : T) → eq x y ≡ true → x ≡ y
  pub eq_refl : (x : T) → eq x x ≡ true

infix 50 ◌==◌
abbrev pub ◌==◌ {ℓ} : {T : Type ℓ} ⦃equality : PartialEq T⦄ → T → T → Bool
◌==◌ ⦃equality⦄ x y = equality.eq x y

instance abbrev pub text_eq : PartialEq Text
text_eq = record {
  eq = λ x y. ite (text_discrete x y) true false;
  eq_sound = λ x y. (text_beq_iff x y).0;
  eq_refl = λ x. (text_beq_iff x x).1 refl;
}

instance abbrev pub nat_eq : PartialEq ℕ
nat_eq = record {
  eq = nat_beq;
  eq_sound = λ x y. (nat_beq_iff x y).0;
  eq_refl = λ x. (nat_beq_iff x x).1 refl;
}

pub text_beq_refl : (a : Text) → (a == a) ≡ true
text_beq_refl a = text_eq.eq_refl a
