-- ===== src/GoHeap/Slots.antt =====
-- Slices under the swap of container/heap: what stands at an index, and what they weigh.
use real_api_server.Prelude.{
  ℕ, zero, suc, ◌+◌, ◌<◌, ◌≡◌, refl, ap, List, [], ◌∷◌, ◌++◌, some, arith, length, get_elem?, set,
  take, length-set, ◌==◌, nat_eq, if◌then◌else◌,
}
use real_api_server.GoHeap.{swap}

module _ {A : Type 0} where
  -- A number read off the entry at an index; 0 out of range.
  abbrev pub at : (A → ℕ) → List A → ℕ → ℕ
  at f [] i = 0
  at f (x ∷ l) zero = f x
  at f (x ∷ l) (suc i) = at f l i

  -- The sum of a weight over all entries.
  abbrev pub weigh : (A → ℕ) → List A → ℕ
  weigh w [] = 0
  weigh w (x ∷ l) = w x + weigh w l

  -- The same entries, each as often: every weight has the same sum.
  abbrev pub Same : List A → List A → Type 0
  Same l m = (w : A → ℕ) → weigh w l ≡ weigh w m

  pub weigh-append : (w : A → ℕ) (l m : List A) → weigh w (l ++ m) ≡ weigh w l + weigh w m
  weigh-append w [] m = omega arith
  weigh-append w (x ∷ l) m = omega (arith, weigh-append w l m)

  pub Same-length : (l m : List A) → Same l m → length l ≡ length m
  Same-length l m h = omega (arith, count l, count m, h (λ _. 1))
    where
      count : (k : List A) → weigh (λ _. 1) k ≡ length k
      count [] = refl
      count (x ∷ k) = omega (arith, count k)

  pub at-get_elem? :
      (f : A → ℕ) (l : List A) (i : ℕ) {x : A} → get_elem? l i ≡ some x → at f l i ≡ f x
  at-get_elem? f [] i h = ground arith
  at-get_elem? f (y ∷ l) zero h = ground arith
  at-get_elem? f (y ∷ l) (suc i) h = at-get_elem? f l i h

  pub get_elem?-in : (l : List A) (i : ℕ) → i < length l → (x : A) × (get_elem? l i ≡ some x)
  get_elem?-in [] i h = absurd (omega arith)
  get_elem?-in (x ∷ l) zero h = (x, refl)
  get_elem?-in (x ∷ l) (suc i) h = get_elem?-in l i (omega arith)

  at-set :
      (f : A → ℕ) (l : List A) (i : ℕ) (v : A) (c : ℕ)
      → i < length l
      → at f (set l i v) c ≡ (if c == i then f v else at f l c)
  at-set f [] i v c h = absurd (omega arith)
  at-set f (x ∷ l) zero v zero h = refl
  at-set f (x ∷ l) zero v (suc c) h = ground arith
  at-set f (x ∷ l) (suc i) v zero h = ground arith
  at-set f (x ∷ l) (suc i) v (suc c) h = ground (arith, at-set f l i v c)

  weigh-set :
      (w : A → ℕ) (l : List A) (i : ℕ) (v : A)
      → i < length l
      → weigh w (set l i v) + at w l i ≡ weigh w l + w v
  weigh-set w [] i v h = absurd (omega arith)
  weigh-set w (x ∷ l) zero v h = omega arith
  weigh-set w (x ∷ l) (suc i) v h = omega (arith, weigh-set w l i v)

  pub at-take : (f : A → ℕ) (n : ℕ) (l : List A) (c : ℕ) → c < n → at f (take n l) c ≡ at f l c
  at-take f zero l c h = absurd (omega arith)
  at-take f (suc n) [] c h = refl
  at-take f (suc n) (x ∷ l) zero h = refl
  at-take f (suc n) (x ∷ l) (suc c) h = at-take f n l c (omega arith)

  pub weigh-take :
      (w : A → ℕ) (n : ℕ) (l : List A)
      → length l ≡ suc n
      → weigh w (take n l) + at w l n ≡ weigh w l
  weigh-take w zero (x ∷ []) h = omega arith
  weigh-take w (suc n) (x ∷ l) h = omega (arith, weigh-take w n l)
  weigh-take w n l h = absurd (omega arith)

  pub at-append_last :
      (f : A → ℕ) (l : List A) (x : A) (c : ℕ)
      → at f (l ++ x ∷ []) c ≡ (if c == length l then f x else at f l c)
  at-append_last f [] x zero = refl
  at-append_last f [] x (suc c) = ground arith
  at-append_last f (y ∷ l) x zero = ground arith
  at-append_last f (y ∷ l) x (suc c) = ground (arith, at-append_last f l x c)

  module _ (l : List A) (i j : ℕ) (hi : i < length l) (hj : j < length l) where
    swap_eq :
        (x : A) × (y : A) × (get_elem? l i ≡ some x)
        × (get_elem? l j ≡ some y)
        × (swap l i j ≡ set (set l i y) j x)
    unfolding swap
    swap_eq =
        let (x, ex) = get_elem?-in l i hi in
        let (y, ey) = get_elem?-in l j hj in (x, y, ex, ey, ground arith)

    pub length-swap : length (swap l i j) ≡ length l
    length-swap =
        let (x, y, ex, ey, e) = swap_eq in
        omega (arith, ap length e, length-set (set l i y) j x, length-set l i y)

    pub at-swap :
        (f : A → ℕ) (c : ℕ)
        → at f (swap l i j) c ≡ (if c == j then at f l i else if c == i then at f l j else at f l c)
    at-swap f c =
        let (x, y, ex, ey, e) = swap_eq in
        rw e (
          ground (
            arith,
            at-set f (set l i y) j x c,
            at-set f l i y c,
            length-set l i y,
            at-get_elem? f l i ex,
            at-get_elem? f l j ey,
          ))

    pub swap-Same : Same (swap l i j) l
    swap-Same w =
        let (x, y, ex, ey, e) = swap_eq in
        rw e (
          ground (
            arith,
            weigh-set w (set l i y) j x,
            weigh-set w l i y,
            at-set w l i y j,
            length-set l i y,
            at-get_elem? w l i ex,
            at-get_elem? w l j ey,
          ))
