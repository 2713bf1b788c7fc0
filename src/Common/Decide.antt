-- ===== src/Common/Decide.antt =====
-- Decidable equality as an interface, so that one operator compares numbers, texts and addresses.
use Prim.Native.Nat.{ℕ}
use mathlib.Core.List.{List}
use mathlib.Core.Path.{◌≡◌}
use native.Mathlib.Decide.{ℕ_discrete}

pub record Eq {ℓ} (A : Type ℓ) : Type ℓ where
  pub decide : Discrete A

infix 50 ◌=?◌
abbrev pub ◌=?◌ {ℓ} : {A : Type ℓ} ⦃e : Eq A⦄ (a b : A) → Dec (a ≡ b)
◌=?◌ ⦃e⦄ = e.decide

unfoldable pub Text-discrete : Discrete (List ℕ)
unfolding ℕ_discrete
Text-discrete = hlevel ℕ_discrete

instance abbrev pub nat_eq : Eq ℕ
nat_eq = record { decide = ℕ_discrete }

-- A Go string is the list of its bytes.
instance abbrev pub text_eq : Eq (List ℕ)
text_eq = record { decide = Text-discrete }
