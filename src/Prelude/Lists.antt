-- ===== src/Prelude/Lists.antt =====
-- Lists measured and indexed by native numbers, under the library's names, and predicates on them.
use Prim.Native.Nat.{ℕ, zero, suc, ◌+◌, min}
use mathlib.Core.Path.{◌≡◌, refl, sym, ap, subst}
use mathlib.Core.Logic.{◌⊎◌, inl, inr}
use mathlib.Core.List.{List, [], ◌∷◌, ◌++◌}
use mathlib.Core.Option.{Option, none, some}
use native.Mathlib.Omega.{arith}

module _ {ℓ} {A : Type ℓ} where
  abbrev pub length : List A → ℕ
  length [] = 0
  length (x ∷ xs) = suc (length xs)

  abbrev pub get_elem? : List A → ℕ → Option A
  get_elem? [] i = none
  get_elem? (x ∷ xs) zero = some x
  get_elem? (x ∷ xs) (suc i) = get_elem? xs i

  -- A write out of bounds changes nothing.
  abbrev pub set : List A → ℕ → A → List A
  set [] i v = []
  set (x ∷ xs) zero v = v ∷ xs
  set (x ∷ xs) (suc i) v = x ∷ set xs i v

  abbrev pub take : ℕ → List A → List A
  take zero xs = []
  take (suc n) [] = []
  take (suc n) (x ∷ xs) = x ∷ take n xs

  abbrev pub drop : ℕ → List A → List A
  drop zero xs = xs
  drop (suc n) [] = []
  drop (suc n) (x ∷ xs) = drop n xs

  abbrev pub replicate : ℕ → A → List A
  replicate zero a = []
  replicate (suc n) a = a ∷ replicate n a

  pub length-append : (xs ys : List A) → length (xs ++ ys) ≡ length xs + length ys
  length-append [] ys = omega arith
  length-append (x ∷ xs) ys = omega (arith, length-append xs ys)

  pub length-set : (xs : List A) (i : ℕ) (v : A) → length (set xs i v) ≡ length xs
  length-set [] i v = refl
  length-set (x ∷ xs) zero v = refl
  length-set (x ∷ xs) (suc i) v = ap suc (length-set xs i v)

  pub length-take : (n : ℕ) (xs : List A) → length (take n xs) ≡ min n (length xs)
  length-take zero xs = omega arith
  length-take (suc n) [] = omega arith
  length-take (suc n) (x ∷ xs) = omega (arith, length-take n xs)

-- Every entry satisfies `P`.
abbrev pub All {ℓ κ} : {A : Type ℓ} → (A → Type κ) → List A → Type κ
All P [] = Unit
All P (x ∷ xs) = P x × All P xs

-- `a` stands in the list, at a place that is kept.
abbrev pub Within : {A : Type 0} → A → List A → Type 0
Within a [] = ⊥
Within a (x ∷ xs) = (a ≡ x) ⊎ Within a xs

module _ {A : Type 0} (P : A → Type 0) where
  pub All-append_one : (l : List A) (a : A) → All P l → P a → All P (l ++ a ∷ [])
  All-append_one [] a h p = (p, tt)
  All-append_one (x ∷ l) a (q, h) p = (q, All-append_one l a h p)

  pub All-take : (n : ℕ) (l : List A) → All P l → All P (take n l)
  All-take zero l h = tt
  All-take (suc n) [] h = tt
  All-take (suc n) (x ∷ l) (p, h) = (p, All-take n l h)

  pub All-get_elem : (l : List A) (i : ℕ) {a : A} → All P l → get_elem? l i ≡ some a → P a
  All-get_elem [] i h e = cc
  All-get_elem (x ∷ l) zero {a} (p, h) e = subst P (cc) p
  All-get_elem (x ∷ l) (suc i) (p, h) e = All-get_elem l i h e

  pub All-set : (l : List A) (i : ℕ) (a : A) → All P l → P a → All P (set l i a)
  All-set [] i a h p = tt
  All-set (x ∷ l) zero a (q, h) p = (p, h)
  All-set (x ∷ l) (suc i) a (q, h) p = (q, All-set l i a h p)

  pub All-Within : (l : List A) (a : A) → All P l → Within a l → P a
  All-Within [] a h w = absurd w
  All-Within (x ∷ l) a (p, h) (inl e) = subst P (sym e) p
  All-Within (x ∷ l) a (p, h) (inr w) = All-Within l a h w

  pub All-of-Within : (l : List A) → ((a : A) → Within a l → P a) → All P l
  All-of-Within [] f = tt
  All-of-Within (x ∷ l) f = (f x (inl refl), All-of-Within l (λ a w. f a (inr w)))

pub All-imp :
    {A : Type 0} (P Q : A → Type 0) (l : List A) → ((a : A) → P a → Q a) → All P l → All Q l
All-imp P Q [] f h = tt
All-imp P Q (x ∷ l) f (p, h) = (f x p, All-imp P Q l f h)
