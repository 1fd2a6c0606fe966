-- ===== src/Base/Outcomes.antt =====
-- What a Go function with an error result does: it returns a value, returns an error, or panics
-- (an index or a slice bound out of range, a nil pointer, a failed type assertion).
use mathlib.Core.Path.{◌≡◌, refl}

pub data Result {ℓ} (E : Type 0) (A : Type ℓ) : Type ℓ where
  ok : A → Result E A
  err : E → Result E A
  panic : Result E A

infixl 5 ◌>>=◌ ◌>>◌
abbrev pub ◌>>=◌ {ℓ κ} :
    {E : Type 0} {A : Type ℓ} {B : Type κ} → Result E A → (A → Result E B) → Result E B
panic >>= next = panic
err e >>= next = err e
ok a >>= next = next a

-- What follows a call whose only result is an error.
abbrev pub ◌>>◌ {ℓ} : {E : Type 0} {B : Type ℓ} → Result E (Unit {0}) → Result E B → Result E B
first >> second = first >>= λ nothing. second

-- The error wrapped by `fmt.Errorf("…: %w", err)`: another constructor of the caller's errors.
abbrev pub wrap {ℓ} : {E F : Type 0} {A : Type ℓ} → (E → F) → Result E A → Result F A
wrap f (ok a) = ok a
wrap f (err e) = err (f e)
wrap f panic = panic

pub ok-injective {ℓ} :
    {E : Type 0} {A : Type ℓ} {a b : A} → ◌≡◌ {A = Result E A} (ok a) (ok b) → a ≡ b
ok-injective h = cc

-- The call returns a value, and one with the property.
abbrev pub IsOk {ℓ} : {E : Type 0} {A : Type ℓ} → Result E A → Type 0
IsOk (ok a) = Unit
IsOk (err e) = ⊥
IsOk panic = ⊥

abbrev pub Gives {ℓ} : {E : Type 0} {A : Type ℓ} → (A → Type 0) → Result E A → Type ℓ
Gives {A} P r = (a : A) × (r ≡ ok a) × P a

pub bind-Gives {ℓ κ} :
    {E : Type 0} {A : Type ℓ} {B : Type κ} {P : A → Type 0} {Q : B → Type 0} {r : Result E A}
    {k : A → Result E B}
    → Gives P r
    → ((a : A) → P a → Gives Q (k a))
    → Gives Q (r >>= k)
bind-Gives (a, e, h) f = rw e (f a h)

pub Gives-IsOk {ℓ} :
    {E : Type 0} {A : Type ℓ} {P : A → Type 0} {r : Result E A} → Gives P r → IsOk r
Gives-IsOk (a, e, h) = rw e tt

-- A call that ends without an error has had its parts end without one.
pub bind_ok :
    {E A B : Type 0} (r : Result E A) (next : A → Result E B) (b : B)
    → r >>= next ≡ ok b
    → (a : A) × (r ≡ ok a) × (next a ≡ ok b)
bind_ok (ok a) next b h = (a, refl, h)
bind_ok (err e) next b h = cc
bind_ok panic next b h = cc

pub wrap_ok : {E F A : Type 0} (f : E → F) (r : Result E A) (a : A) → wrap f r ≡ ok a → r ≡ ok a
wrap_ok f (ok b) a h = cc
wrap_ok f (err e) a h = cc
wrap_ok f panic a h = cc
