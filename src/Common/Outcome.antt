-- ===== src/Common/Outcome.antt =====
-- Programs that may raise: `none` stands for the exception. `Ensures P r` says that the program
-- returns, and that its result satisfies `P`.
use mathlib.Core.Path.{◌≡◌, refl, subst}
use mathlib.Core.Option.{Option, none, some}

infixl 5 ◌>>=◌
abbrev pub ◌>>=◌ {ℓ κ} : {A : Type ℓ} {B : Type κ} → Option A → (A → Option B) → Option B
none >>= f = none
some a >>= f = f a

abbrev pub Ensures {ℓ} : {A : Type ℓ} → (A → Type 0) → Option A → Type 0
Ensures P none = ⊥
Ensures P (some a) = P a

pub Ensures->>= {ℓ κ} :
    {A : Type ℓ} {B : Type κ} (P : A → Type 0) (Q : B → Type 0) (m : Option A) (f : A → Option B)
    → Ensures P m
    → ((a : A) → P a → Ensures Q (f a))
    → Ensures Q (m >>= f)
Ensures->>= P Q none f h k = absurd h
Ensures->>= P Q (some a) f h k = k a h

pub Ensures-imp {ℓ} :
    {A : Type ℓ} (P : A → Type 0) (Q : A → Type 0) (m : Option A)
    → ((a : A) → P a → Q a)
    → Ensures P m
    → Ensures Q m
Ensures-imp P Q none f h = absurd h
Ensures-imp P Q (some a) f h = f a h

pub Ensures-eq {ℓ} :
    {A : Type ℓ} (P : A → Type 0) (m : Option A) (a : A) → Ensures P m → m ≡ some a → P a
Ensures-eq P none a h e = cc
Ensures-eq P (some b) a h e = let same : b ≡ a = cc in subst P same h

-- A program that ensures something returns.
pub Ensures-returns {ℓ} :
    {A : Type ℓ} (P : A → Type 0) (m : Option A) → Ensures P m → (a : A) × (m ≡ some a) × P a
Ensures-returns P none h = absurd h
Ensures-returns P (some a) h = (a, refl, h)
