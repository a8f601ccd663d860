-- ===== src/GoHeap.antt =====
-- Go's container/heap over a slice: `heap.Push` and `heap.Pop` with their `up` and `down`, as
-- tpl/s2s_heap.go and status/retrieval_report.go use them. `less` is the type's `Less` on entries.
-- A loop runs on fuel; the callers give more than its rounds.
pub mod Slots
pub mod Order
pub mod Sift
pub mod Queue
use real_api_server.Prelude.{
  ℕ, zero, suc, ◌+◌, ◌-◌, ◌*◌, ◌/◌, Bool, true, false, not, ◌&&◌, ◌||◌, List, [], ◌∷◌, ◌++◌, Option,
  none, some, length, get_elem?, set, take, ltb, leb, ◌==◌, nat_eq, if◌then◌else◌,
}

module _ {A : Type 0} where
  -- h[i], h[j] = h[j], h[i]
  unfoldable pub swap : List A → ℕ → ℕ → List A
  swap l i j = elim (get_elem? l i) [
    | none ↦ l
    | some x ↦ elim (get_elem? l j) [ none ↦ l | some y ↦ set (set l i y) j x ]
  ]

  module _ (less : A → A → Bool) where
    -- h.Less(i, j)
    pub less_at : List A → ℕ → ℕ → Bool
    less_at l i j = elim (get_elem? l i) [
      | none ↦ false
      | some x ↦ elim (get_elem? l j) [ none ↦ false | some y ↦ less x y ]
    ]

    pub up : ℕ → List A → ℕ → List A
    up zero l j = l
    up (suc fuel) l j =
        let i = (j - 1) / 2 in
        let rest = up fuel (swap l i j) i in if i == j || not (less_at l j i) then l else rest

    pub smaller_child : List A → ℕ → ℕ → ℕ
    smaller_child l i n =
        if ltb (2 * i + 2) n && less_at l (2 * i + 2) (2 * i + 1) then 2 * i + 2 else 2 * i + 1

    pub down : ℕ → List A → ℕ → ℕ → List A
    down zero l i n = l
    down (suc fuel) l i n =
        let j = smaller_child l i n in
        let rest = down fuel (swap l i j) j n in
        if leb n (2 * i + 1) || not (less_at l j i) then l else rest

    -- `heap.Push` after the type's own `Push` has appended (or not).
    unfoldable pub sift_last : List A → List A
    unfolding up less_at swap
    sift_last l = up (length l + 1) l (length l - 1)

    -- `heap.Pop` up to the type's own `Pop`: the least entry is moved to the end.
    unfoldable pub sift_first : List A → List A
    unfolding down smaller_child less_at swap
    sift_first l = down (length l + 1) (swap l 0 (length l - 1)) 0 (length l - 1)

    -- `heap.Push` of a type whose `Push` appends.
    unfoldable pub push : List A → A → List A
    unfolding sift_last
    push l x = sift_last (l ++ x ∷ [])

    -- `heap.Pop` of a type whose `Pop` takes the last entry; `none` is the panic on an empty slice.
    unfoldable pub pop : List A → Option (A × List A)
    unfolding sift_first
    pop l =
        let m = sift_first l in
        elim (get_elem? m (length l - 1)) [ none ↦ none | some x ↦ some (x, take (length l - 1) m) ]
