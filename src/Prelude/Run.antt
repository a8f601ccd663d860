-- ===== src/Prelude/Run.antt =====
-- A call that returns a value or panics.
use mathlib.Core.Bool.{Bool, true, false}
use real_api_server.Prelude.Tests.{if◌then◌else◌}
use mathlib.Core.Path.{◌≡◌, refl}

pub data Run {ℓ} (V : Type ℓ) : Type ℓ where
  panic : Run V
  ok : V → Run V

infixl 5 ◌>>=◌
-- What follows a call runs only if the call returns.
abbrev pub ◌>>=◌ {ℓ κ} : {V : Type ℓ} {W : Type κ} → Run V → (V → Run W) → Run W
panic >>= next = panic
ok v >>= next = next v

-- Inversion of a bind that returns.
pub >>=-eq-ok {ℓ κ} :
    {V : Type ℓ} {W : Type κ} (call : Run V) (next : V → Run W) {w : W}
    → (call >>= next) ≡ ok w
    → (v : V) × (call ≡ ok v) × (next v ≡ ok w)
>>=-eq-ok panic next returns = cc
>>=-eq-ok (ok v) next returns = (v, refl, returns)

-- What a call returns, if it returns, satisfies `P`.
abbrev pub Gives {ℓ κ} : {V : Type ℓ} → (V → Type κ) → Run V → Type κ
Gives P panic = Unit
Gives P (ok v) = P v

pub Gives->>= {ℓ κ} :
    {V : Type ℓ} {W : Type ℓ} (P : V → Type κ) (Q : W → Type κ) (call : Run V) (next : V → Run W)
    → Gives P call
    → ((v : V) → P v → Gives Q (next v))
    → Gives Q (call >>= next)
Gives->>= P Q panic next h f = tt
Gives->>= P Q (ok v) next h f = f v h

-- A call returns, and what it returns satisfies `P`.
abbrev pub Returns {ℓ} : {V : Type ℓ} → (V → Type 0) → Run V → Type 0
Returns P panic = ⊥
Returns P (ok v) = P v

pub Returns->>= {ℓ} :
    {V W : Type ℓ} (P : V → Type 0) (Q : W → Type 0) (call : Run V) (next : V → Run W)
    → Returns P call
    → ((v : V) → P v → Returns Q (next v))
    → Returns Q (call >>= next)
Returns->>= P Q panic next h f = absurd h
Returns->>= P Q (ok v) next h f = f v h

pub Returns-of-Gives {ℓ} :
    {V : Type ℓ} (P : V → Type 0) (call : Run V) {v : V}
    → Gives P call
    → call ≡ ok v
    → Returns P call
Returns-of-Gives P panic h e = cc
Returns-of-Gives P (ok v) h e = h

pub Returns-ok {ℓ} :
    {V : Type ℓ} (P : V → Type 0) (call : Run V) → Returns P call → (v : V) × (call ≡ ok v) × P v
Returns-ok P panic h = absurd h
Returns-ok P (ok v) h = (v, refl, h)

pub Returns-imp {ℓ} :
    {V : Type ℓ} (P Q : V → Type 0) (call : Run V)
    → ((v : V) → P v → Q v)
    → Returns P call
    → Returns Q call
Returns-imp P Q panic f h = absurd h
Returns-imp P Q (ok v) f h = f v h

pub Returns-if {ℓ} :
    {V : Type ℓ} (P : V → Type 0) (b : Bool) (x y : Run V)
    → (b ≡ true → Returns P x)
    → (b ≡ false → Returns P y)
    → Returns P (if b then x else y)
Returns-if P true x y f g = f refl
Returns-if P false x y f g = g refl
