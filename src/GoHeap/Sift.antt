-- ===== src/GoHeap/Sift.antt =====
-- `up` and `down` of container/heap on a heap with one entry out of place.
use real_api_server.Prelude.{
  ℕ, zero, suc, ◌+◌, ◌*◌, ◌≤◌, ◌<◌, ◌≡◌, ◌≢◌, ◌⊎◌, inl, inr, refl, ◌∙◌, Bool, true, not, ◌&&◌, ◌||◌,
  List, arith, length, ltb, leb, ◌==◌, nat_eq, Bool-cases,
}
use real_api_server.GoHeap.{swap, less_at, up, down, smaller_child}
use real_api_server.GoHeap.Slots.{
  at, Same, at-get_elem?, get_elem?-in, length-swap, at-swap, swap-Same,
}
use real_api_server.GoHeap.Order.{parent, LeAt, IsHeapTo}

-- `less` compares the places that `p` and `n` give.
abbrev pub Compares : {A : Type 0} → (A → ℕ) → (A → ℕ) → (A → A → Bool) → Type 0
Compares {A} p n less = (a b : A) → less a b ≡ ltb (p a + n b) (p b + n a)

module _ {A : Type 0} (p n : A → ℕ) (less : A → A → Bool) (cmp : Compares p n less) where
  less_at_eq :
      (l : List A) (i j : ℕ)
      → i < length l
      → j < length l
      → less_at less l i j ≡ ltb (at p l i + at n l j) (at p l j + at n l i)
  unfolding less_at
  less_at_eq l i j hi hj =
      let (x, ex) = get_elem?-in l i hi in
      let (y, ey) = get_elem?-in l j hj in
      ground (
        arith,
        cmp x y,
        at-get_elem? p l i ex,
        at-get_elem? n l i ex,
        at-get_elem? p l j ey,
        at-get_elem? n l j ey,
      )

  -- Only the edge above `j` may be out of order.
  pub record UpInv (l : List A) (j : ℕ) : Type 0 where
    pub inside : j < length l
    pub edges : (c : ℕ) → 0 < c → c < length l → c ≢ j → LeAt p n l (parent c) c
    pub bridged : (c : ℕ) → 0 < c → c < length l → 0 < j → parent c ≡ j → LeAt p n l (parent j) c

  abbrev pub Sifted : ℕ → List A → List A → Type 0
  Sifted m l r = IsHeapTo p n m r × Same r l

  swap-UpInv :
      (l : List A) (j : ℕ)
      → UpInv l j
      → 0 < j
      → at p l j + at n l (parent j) < at p l (parent j) + at n l j
      → UpInv (swap l (parent j) j) (parent j)
  swap-UpInv l j v pos below =
      let hi : parent j < length l = omega (arith, v.inside) in
      let size = length-swap l (parent j) j hi v.inside in
      let atp = at-swap l (parent j) j hi v.inside p in
      let atn = at-swap l (parent j) j hi v.inside n in
      record {
        inside = omega arith;
        edges = λ c a b d.
            ground (arith, atp c, atn c, atp (parent c), atn (parent c), v.edges c, v.bridged c);
        bridged = λ c a b d e. ground (
          arith,
          atp c,
          atn c,
          atp (parent (parent j)),
          atn (parent (parent j)),
          v.edges c,
          v.edges (parent j),
        );
      }

  pub up_restores :
      (k : ℕ) (l : List A) (j : ℕ) → j < k → UpInv l j → Sifted (length l) l (up less k l j)
  unfolding up
  up_restores zero l j f v = absurd (omega arith)
  up_restores (suc k) l j f v =
      elim (Bool-cases (parent j == j || not (less_at less l j (parent j)))) [
        | inl stop ↦
            rw stop (
              (λ c a b. ground (arith, v.edges c, less_at_eq l j (parent j) v.inside)),
              (λ w. refl),
            )
        | inr go ↦
            let size = length-swap l (parent j) j (omega (arith, v.inside)) v.inside in
            let pos : 0 < j = ground arith in
            let next =
              swap-UpInv l j v pos
                (ground (arith, less_at_eq l j (parent j) v.inside (omega (arith, v.inside)))) in
            let (heap, same) = up_restores k (swap l (parent j) j) (parent j) (omega arith) next in
            rw go (
              (λ c a b. heap c a (omega arith)),
              (λ w. same w ∙ swap-Same l (parent j) j (omega (arith, v.inside)) v.inside w),
            )
      ]

  -- `m` is the child of `i` below `b` that is placed first.
  record IsFirstChild (l : List A) (b i m : ℕ) : Type 0 where
    pub inside : m < b
    child : (m ≡ 2 * i + 1) ⊎ (m ≡ 2 * i + 2)
    first : (c : ℕ) → 0 < c → c < b → parent c ≡ i → LeAt p n l m c

  smaller_child-IsFirstChild :
      (l : List A) (i b : ℕ)
      → b ≤ length l
      → 2 * i + 1 < b
      → IsFirstChild l b i (smaller_child less l i b)
  unfolding smaller_child
  smaller_child-IsFirstChild l i b hb h =
      elim (Bool-cases (ltb (2 * i + 2) b && less_at less l (2 * i + 2) (2 * i + 1))) [
        | inl right ↦ rw right (record {
          inside = ground arith;
          child = inr refl;
          first = λ c u v w. ground (arith, less_at_eq l (2 * i + 2) (2 * i + 1));
        })
        | inr left ↦ rw left (record {
          inside = h;
          child = inl refl;
          first = λ c u v w. ground (arith, less_at_eq l (2 * i + 2) (2 * i + 1));
        })
      ]

  -- Among the first `b`, only the edges below `i` may be out of order.
  pub record DownInv (b : ℕ) (l : List A) (i : ℕ) : Type 0 where
    pub bound : b ≤ length l
    pub edges : (c : ℕ) → 0 < c → c < b → parent c ≢ i → LeAt p n l (parent c) c
    pub bridged : (c : ℕ) → 0 < c → c < b → 0 < i → parent c ≡ i → LeAt p n l (parent i) c

  swap-DownInv :
      (b : ℕ) (l : List A) (i m : ℕ)
      → DownInv b l i
      → IsFirstChild l b i m
      → at p l m + at n l i < at p l i + at n l m
      → DownInv b (swap l i m) m
  swap-DownInv b l i m v s below =
      let hm : m < length l = omega (arith, v.bound, s.inside) in
      let hi : i < length l = omega (arith, s.child) in
      let size = length-swap l i m hi hm in
      let atp = at-swap l i m hi hm p in
      let atn = at-swap l i m hi hm n in
      record {
        bound = omega (arith, v.bound);
        edges = λ c u w d. ground (
          arith,
          s.child,
          atp c,
          atn c,
          atp (parent c),
          atn (parent c),
          v.edges c,
          v.bridged m,
          s.first c,
        );
        bridged = λ c u w d e.
            ground (arith, s.child, atp c, atn c, atp (parent m), atn (parent m), v.edges c);
      }

  -- What `down` keeps: the entries, and what stands at `b` and after.
  pub record Sunk (b : ℕ) (l r : List A) : Type 0 where
    pub heap : IsHeapTo p n b r
    pub same : Same r l
    pub kept : (f : A → ℕ) (c : ℕ) → b ≤ c → at f r c ≡ at f l c

  pub down_restores :
      (k b : ℕ) (l : List A) (i : ℕ) → b < k + i → DownInv b l i → Sunk b l (down less k l i b)
  unfolding down
  down_restores zero b l i f v = record {
    heap = λ c u w. v.edges c u w (omega arith);
    same = λ w. refl;
    kept = λ g c u. refl;
  }
  down_restores (suc k) b l i f v =
      elim (Bool-cases (leb b (2 * i + 1) || not (less_at less l (smaller_child less l i b) i))) [
        | inl stop ↦ rw stop (record {
          heap = λ c u w. stop_heap stop c u w;
          same = λ w. refl;
          kept = λ g c u. refl;
        })
        | inr go ↦
            let h : 2 * i + 1 < b = ground arith in
            let m = smaller_child less l i b in
            let s = smaller_child-IsFirstChild l i b v.bound h in
            let hm : m < length l = omega (arith, v.bound, s.inside) in
            let hi : i < length l = omega (arith, v.bound) in
            let next = swap-DownInv b l i m v s (ground (arith, less_at_eq l m i hm hi)) in
            let r = down_restores k b (swap l i m) m (omega (arith, s.child)) next in
            rw go (record {
              heap = r.heap;
              same = λ w. r.same w ∙ swap-Same l i m hi hm w;
              kept =
                  λ g c u. ground (arith, r.kept g c, at-swap l i m hi hm g c, s.inside, s.child);
            })
      ]
    where
      stop_heap :
          (leb b (2 * i + 1) || not (less_at less l (smaller_child less l i b) i)) ≡ true
          → IsHeapTo p n b l
      stop_heap stop c u w = elim (Bool-cases (leb b (2 * i + 1))) [
        | inl leaf ↦ v.edges c u w (ground arith)
        | inr inner ↦
            let h : 2 * i + 1 < b = ground arith in
            let s = smaller_child-IsFirstChild l i b v.bound h in
            ground (
              arith,
              v.edges c,
              s.first c,
              v.bound,
              s.inside,
              less_at_eq l (smaller_child less l i b) i (omega (arith, s.inside, v.bound))
                  (omega (arith, v.bound)),
            )
      ]
