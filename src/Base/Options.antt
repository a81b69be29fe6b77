-- ===== src/Base/Options.antt =====
-- Chains of calls that may not return: `none` is a loop that does not end.
use Prim.Native.Nat.{ℕ}
use mathlib.Core.Path.{◌≡◌, refl}
use mathlib.Core.Option.{Option, none, some}
use mathlib.Core.Bool.{Bool, true, false}
use gnuwindows.Base.Tests.{if◌then◌else◌}

infixl 5 ◌>>=◌
abbrev pub ◌>>=◌ {ℓ κ} : {A : Type ℓ} {B : Type κ} → Option A → (A → Option B) → Option B
none >>= f = none
some a >>= f = f a

-- equations between results
pub pair_inv :
    {A : Type 0} {l m : ℕ} {x y : A}
    → ◌≡◌ {A = Option ℕ × A} (some l, x) (some m, y)
    → (l ≡ m) × (x ≡ y)
pair_inv e = (cc e, cc e)

pub none_inv : {A : Type 0} {m : ℕ} {x y : A} → ◌≡◌ {A = Option ℕ × A} (none, x) (some m, y) → ⊥
none_inv e = cc e

pub some_inv : {A : Type 0} {x y : A} → some x ≡ some y → x ≡ y
some_inv e = cc e

-- a chain of calls that has a result
pub bind_inv :
    {A B : Type 0} (o : Option A) (k : A → Option B) {b : B}
    → (o >>= k) ≡ some b
    → (a : A) × (o ≡ some a) × (k a ≡ some b)
bind_inv none k e = absurd (cc e)
bind_inv (some a) k e = (a, refl, e)

-- The chain of calls returns, and what it returns meets `P`.
abbrev pub Ends {ℓ} : {A : Type ℓ} → (A → Type 0) → Option A → Type 0
Ends P none = ⊥
Ends P (some a) = P a

pub Ends-bind {ℓ} :
    {A B : Type ℓ} (P : A → Type 0) (Q : B → Type 0) (m : Option A) (f : A → Option B)
    → Ends P m
    → ((a : A) → P a → Ends Q (f a))
    → Ends Q (m >>= f)
Ends-bind P Q none f p h = p
Ends-bind P Q (some a) f p h = h a p

pub if-Ends {ℓ} :
    {A : Type ℓ} (P : A → Type 0) (b : Bool) (x y : Option A)
    → (b ≡ true → Ends P x)
    → (b ≡ false → Ends P y)
    → Ends P (if b then x else y)
if-Ends P true x y h k = h refl
if-Ends P false x y h k = k refl
