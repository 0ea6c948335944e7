-- ===== src/Prelude/Returning.antt =====
-- What holds of the result of a computation that may panic.
use mathlib.Core.Path.{◌≡◌, refl, subst}
use mathlib.Core.Option.{none, some}
use mathlib.Core.Bool.{Bool, true, false}
use smoltcp.Prelude.Tests.{Checked, ◌>>=◌, if◌then◌else◌}

-- The predicate holds of the result, if there is one.
abbrev pub Returns {ℓ κ} : {A : Type ℓ} → (A → Type κ) → Checked A → Type κ
Returns P none = Unit
Returns P (some a) = P a

pub Returns-bind {ℓ κ μ ν} :
    {A : Type ℓ} {B : Type κ} (Q : A → Type μ) (P : B → Type ν) (m : Checked A) (f : A → Checked B)
    → Returns Q m
    → ((a : A) → Q a → Returns P (f a))
    → Returns P (m >>= f)
Returns-bind Q P none f q h = tt
Returns-bind Q P (some a) f q h = h a q

-- Whatever the first computation returns.
pub Returns-then {ℓ κ ν} :
    {A : Type ℓ} {B : Type κ} (P : B → Type ν) (m : Checked A) (f : A → Checked B)
    → ((a : A) → Returns P (f a))
    → Returns P (m >>= f)
Returns-then P none f h = tt
Returns-then P (some a) f h = h a

pub Returns-if {ℓ κ} :
    {A : Type ℓ} (P : A → Type κ) (b : Bool) (m n : Checked A)
    → Returns P m
    → Returns P n
    → Returns P (if b then m else n)
Returns-if P true m n p q = p
Returns-if P false m n p q = q

pub Returns-elim {ℓ κ} :
    {A : Type ℓ} (P : A → Type κ) (m : Checked A) (a : A) → Returns P m → m ≡ some a → P a
Returns-elim P m a r e = subst (Returns P) e r

pub Returns-weaken {ℓ κ μ} :
    {A : Type ℓ} (Q : A → Type κ) (P : A → Type μ) (m : Checked A)
    → Returns Q m
    → ((a : A) → Q a → Returns P (some a))
    → Returns P m
Returns-weaken Q P none q h = tt
Returns-weaken Q P (some a) q h = h a q

-- Inversion of a computation that returned.
pub >>=-eq-some {ℓ κ} :
    {A : Type ℓ} {B : Type κ} (m : Checked A) (f : A → Checked B) {b : B}
    → (m >>= f) ≡ some b
    → (a : A) × (m ≡ some a) × (f a ≡ some b)
>>=-eq-some none f h = cc
>>=-eq-some (some a) f h = (a, refl, h)
