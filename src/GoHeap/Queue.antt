-- ===== src/GoHeap/Queue.antt =====
-- `heap.Push` and `heap.Pop` of container/heap as operations of a priority queue.
use real_api_server.Prelude.{
  ℕ, ◌+◌, ◌-◌, ◌≤◌, ◌<◌, ◌≡◌, refl, Bool, List, [], ◌∷◌, ◌++◌, none, some, arith, length, take,
  length-append, length-take,
}
use real_api_server.GoHeap.{swap, sift_last, sift_first, push, pop}
use real_api_server.GoHeap.Slots.{
  at, Same, Same-length, weigh-append, weigh-take, at-get_elem?, get_elem?-in, at-take,
  at-append_last, length-swap, at-swap, swap-Same,
}
use real_api_server.GoHeap.Order.{parent, IsHeapTo, root_least}
use real_api_server.GoHeap.Sift.{Compares, up_restores, down_restores, Sunk}

module _ {A : Type 0} (p n : A → ℕ) where
  abbrev pub IsHeap : List A → Type 0
  IsHeap l = IsHeapTo p n (length l) l

  -- `x` is placed no later than any entry of the list.
  abbrev pub IsFirst : A → List A → Type 0
  IsFirst x l = (i : ℕ) → i < length l → p x + at n l i ≤ at p l i + n x

module _ {A : Type 0} (p n : A → ℕ) (less : A → A → Bool) (cmp : Compares p n less) where
  pub sift_last-IsHeap :
      (l : List A) → IsHeap p n l → IsHeap p n (sift_last less l) × Same (sift_last less l) l
  unfolding sift_last
  sift_last-IsHeap [] h = ((λ c u w. absurd (omega arith)), λ w. refl)
  sift_last-IsHeap (x ∷ l) h =
      let (heap, same) =
        up_restores p n less cmp (length (x ∷ l) + 1) (x ∷ l) (length (x ∷ l) - 1) (omega arith)
          (record {
            inside = omega arith;
            edges = λ c u w d. h c u w;
            bridged = λ c u w d e. absurd (omega arith);
          }) in
      ((λ c u w. heap c u (omega (arith, Same-length (sift_last less (x ∷ l)) (x ∷ l) same))), same)

  -- An appended entry is sifted to its place.
  pub push-IsHeap :
      (l : List A) (x : A)
      → IsHeap p n l
      → IsHeap p n (push less l x) × Same (push less l x) (x ∷ l)
  unfolding push sift_last
  push-IsHeap l x h =
      let size = length-append l (x ∷ []) in
      let (heap, same) =
        up_restores p n less cmp (length (l ++ x ∷ []) + 1) (l ++ x ∷ []) (length (l ++ x ∷ []) - 1)
          (omega arith)
          (record {
            inside = omega arith;
            edges = λ c u w d. ground (
              arith,
              h c,
              at-append_last p l x c,
              at-append_last n l x c,
              at-append_last p l x (parent c),
              at-append_last n l x (parent c),
            );
            bridged = λ c u w d e. absurd (omega arith);
          }) in
      (
        (λ c u w. heap c u (omega (arith, Same-length (push less l x) (l ++ x ∷ []) same))),
        λ w. omega (arith, same w, weigh-append w l (x ∷ [])),
      )

  -- What `heap.Pop` gives on a slice that is not empty.
  pub record Popped (l : List A) (x : A) (rest : List A) : Type 0 where
    pub result : pop less l ≡ some (x, rest)
    pub heap : IsHeap p n rest
    pub same : Same (x ∷ rest) l
    pub first : IsFirst p n x l

  pub pop-empty : pop less [] ≡ none
  unfolding pop
  pop-empty = refl

  pub pop-IsHeap :
      (l : List A) → IsHeap p n l → 0 < length l → (x : A) × (rest : List A) × Popped l x rest
  unfolding pop sift_first
  pop-IsHeap l h pos =
      let m = length l - 1 in
      let hm : m < length l = omega arith in
      let size = length-swap l 0 m pos hm in
      let atp = at-swap l 0 m pos hm p in
      let atn = at-swap l 0 m pos hm n in
      let r : Sunk p n less cmp m (swap l 0 m) (sift_first less l) =
        down_restores p n less cmp (length l + 1) m (swap l 0 m) 0 (omega arith) (record {
          bound = omega arith;
          edges = λ c u w d. ground (arith, h c, atp c, atn c, atp (parent c), atn (parent c));
          bridged = λ c u w d e. absurd (omega arith);
        }) in
      let sized = Same-length (sift_first less l) (swap l 0 m) r.same in
      let (x, ex) = get_elem?-in (sift_first less l) m (omega arith) in
      let cut = length-take m (sift_first less l) in
      let px = at-get_elem? p (sift_first less l) m ex in
      let nx = at-get_elem? n (sift_first less l) m ex in
      (
        x,
        take m (sift_first less l),
        record {
          result = rw (ex, pop);
          heap = λ c u w. ground (
            arith,
            r.heap c,
            at-take p m (sift_first less l) c,
            at-take n m (sift_first less l) c,
            at-take p m (sift_first less l) (parent c),
            at-take n m (sift_first less l) (parent c),
          );
          same = λ w. omega (
            arith,
            r.same w,
            swap-Same l 0 m pos hm w,
            at-get_elem? w (sift_first less l) m ex,
            weigh-take w m (sift_first less l) (omega arith),
          );
          first = λ i b. ground (
            arith,
            root_least p n (length l) l i h b,
            r.kept p m,
            r.kept n m,
            atp m,
            atn m,
            px,
            nx,
          );
        },
      )
