-- ===== src/Base/Classes.antt =====
-- Equality of keys, as `std::unordered_map` and `std::unordered_set` ask for it.
use Prim.Native.Nat.{ℕ}
use Prim.Native.String.{String}
use mathlib.Core.Path.{◌≡◌}
use mathlib.Core.Logic.{◌↔◌}
use mathlib.Core.Bool.{Bool, true, ◌&&◌}
use native.Mathlib.Omega.{arith}
use text.Mathlib.Text.{◌==◌ as str_eq}
use text.Mathlib.TextEquality.{eq_iff as str_eq_iff}
use bento_box.Base.Tests.{nat_eqb, nat_eqb_iff}

-- `std::equal_to` of a type of keys
pub record Key {ℓ} (K : Type ℓ) : Type ℓ where
  pub same : K → K → Bool
  pub same_iff : (j k : K) → (same j k ≡ true) ↔ (j ≡ k)

-- `operator==` of `std::pair`
abbrev pub pair_beq : ℕ × ℕ → ℕ × ℕ → Bool
pair_beq (a, b) (c, d) = nat_eqb a c && nat_eqb b d

pub pair_beq_iff : (p q : ℕ × ℕ) → (pair_beq p q ≡ true) ↔ (p ≡ q)
pair_beq_iff (a, b) (c, d) = ground arith

instance abbrev pub pair_eq : Key (ℕ × ℕ)
pair_eq = record { same = pair_beq; same_iff = pair_beq_iff }

instance abbrev pub string_eq : Key String
string_eq = record { same = str_eq; same_iff = str_eq_iff }

instance abbrev pub nat_eq : Key ℕ
nat_eq = record { same = nat_eqb; same_iff = nat_eqb_iff }

infix 50 ◌==◌
abbrev pub ◌==◌ {ℓ} : {K : Type ℓ} ⦃key : Key K⦄ → K → K → Bool
◌==◌ ⦃key⦄ j k = key.same j k
