-- ===== src/Common/Equality.antt =====
-- Decidable equality as an interface: what Python's `==` and dictionary lookup use.
use Prim.Native.Nat.{ℕ}
use Prim.Native.String.{String}
use mathlib.Core.Path.{◌≡◌, refl, ap}
use mathlib.Core.Logic.{◌↔◌}
use mathlib.Core.Bool.{Bool, true, false, ◌&&◌}
use mathlib.Core.Option.{Option, none, some}
use native.Mathlib.Omega.{arith}
use text.Mathlib.Text.{◌==◌ as str_eq}
use text.Mathlib.TextEquality.{eq_iff}
use vision.Common.Tests.{nat_beq, nat_beq_iff}

pub record Comparable {ℓ} (A : Type ℓ) : Type ℓ where
  pub same : A → A → Bool
  pub same_iff : (a b : A) → (same a b ≡ true) ↔ (a ≡ b)

infix 50 ◌==◌
abbrev pub ◌==◌ {ℓ} : {A : Type ℓ} ⦃e : Comparable A⦄ → A → A → Bool
◌==◌ ⦃e⦄ = e.same

abbrev pub option_beq {ℓ} : {A : Type ℓ} → (A → A → Bool) → Option A → Option A → Bool
option_beq f none none = true
option_beq f none (some b) = false
option_beq f (some a) none = false
option_beq f (some a) (some b) = f a b

pub option_beq_iff {ℓ} :
    {A : Type ℓ} (e : Comparable A) (a b : Option A) → (option_beq e.same a b ≡ true) ↔ (a ≡ b)
option_beq_iff e none none = (λ h. refl, λ h. refl)
option_beq_iff e none (some b) = (λ h. cc, λ h. cc)
option_beq_iff e (some a) none = (λ h. cc, λ h. cc)
option_beq_iff e (some a) (some b) =
    (λ h. ap some ((e.same_iff a b).0 h), λ h. (e.same_iff a b).1 (ground arith))

instance abbrev pub compare_option {ℓ} : {A : Type ℓ} ⦃e : Comparable A⦄ → Comparable (Option A)
compare_option ⦃e⦄ = record { same = option_beq e.same; same_iff = option_beq_iff e }

abbrev pub pair_beq {ℓ κ} :
    {A : Type ℓ} {B : Type κ} → (A → A → Bool) → (B → B → Bool) → A × B → A × B → Bool
pair_beq f g (a, b) (c, d) = f a c && g b d

pub pair_beq_iff {ℓ κ} :
    {A : Type ℓ} {B : Type κ} (e : Comparable A) (d : Comparable B) (x y : A × B)
    → (pair_beq e.same d.same x y ≡ true) ↔ (x ≡ y)
pair_beq_iff e d (a, b) (a', b') = ground (arith, e.same_iff a a', d.same_iff b b')

instance abbrev pub compare_pair {ℓ κ} :
    {A : Type ℓ} {B : Type κ} ⦃e : Comparable A⦄ ⦃d : Comparable B⦄ → Comparable (A × B)
compare_pair ⦃e⦄ ⦃d⦄ = record { same = pair_beq e.same d.same; same_iff = pair_beq_iff e d }

pub same_refl {ℓ} : {A : Type ℓ} ⦃e : Comparable A⦄ (a : A) → (a == a) ≡ true
same_refl ⦃e⦄ a = (e.same_iff a a).1 refl

instance abbrev pub compare_string : Comparable String
compare_string = record { same = str_eq; same_iff = eq_iff }

instance abbrev pub compare_nat : Comparable ℕ
compare_nat = record { same = nat_beq; same_iff = nat_beq_iff }
