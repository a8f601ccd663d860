-- ===== src/Callback/Order.antt =====
-- The order of the callback queue of tpl/s2s_heap.go.
use real_api_server.Prelude.{
  ℕ, zero, suc, ◌-◌, ◌≤◌, ◌<◌, ◌≡◌, refl, some, List, [], ◌∷◌, arith, length, ltb, if◌then◌else◌,
  Bool-cases, inl, inr,
}
use real_api_server.Prelude.Run.{ok}
use real_api_server.GoHeap
use real_api_server.GoHeap.Slots.{at, Same, at-get_elem?}
use real_api_server.GoHeap.Sift.{Compares}
use real_api_server.GoHeap.Queue.{IsHeap, push-IsHeap, pop-IsHeap, sift_last-IsHeap}
use real_api_server.Callback.{CbItem, less, append, push, pop, top}

abbrev pub place_p : CbItem → ℕ
place_p x = x.launch_time

abbrev pub place_n : CbItem → ℕ
place_n _ = 0

-- No item is launched before its parent.
abbrev pub IsQueue : List CbItem → Type 0
IsQueue = IsHeap place_p place_n

less-Compares : Compares place_p place_n less
less-Compares a b = ground arith

-- heapWrapper.Push keeps the order. It adds exactly the item if it has failed at most three times,
-- and otherwise leaves exactly the items that were there.
pub push-IsQueue :
    (h : List CbItem) (x : CbItem)
    → IsQueue h
    → IsQueue (push h x) × Same (push h x) (if ltb 3 x.fail_count then h else x ∷ h)
unfolding push append GoHeap.push
push-IsQueue h x v = elim (Bool-cases (ltb 3 x.fail_count)) [
  | inl drop ↦ rw drop (sift_last-IsHeap place_p place_n less less-Compares h v)
  | inr keep ↦ rw keep (push-IsHeap place_p place_n less less-Compares h x v)
]

pub record Taken (h : List CbItem) (x : CbItem) (rest : List CbItem) : Type 0 where
  pub result : pop h ≡ ok (x, rest)
  pub order : IsQueue rest
  pub same : Same (x ∷ rest) h
  pub first : (i : ℕ) → i < length h → x.launch_time ≤ at place_p h i

pub pop-Taken :
    (h : List CbItem)
    → IsQueue h
    → 0 < length h
    → (x : CbItem) × (rest : List CbItem) × Taken h x rest
unfolding pop
pop-Taken h v b =
    let (x, rest, r) = pop-IsHeap place_p place_n less less-Compares h v b in
    (
      x,
      rest,
      record {
        result = rw (r.result, pop);
        order = r.heap;
        same = r.same;
        first = λ i c. omega (arith, r.first i c, zeros h i);
      },
    )
  where
    zeros : (l : List CbItem) (i : ℕ) → at place_n l i ≡ 0
    zeros [] i = refl
    zeros (y ∷ l) zero = refl
    zeros (y ∷ l) (suc i) = zeros l i

top_last :
    (h : List CbItem) (item : CbItem)
    → top h ≡ some item
    → (0 < length h) × (at place_p h (length h - 1) ≡ item.launch_time)
unfolding top
top_last [] item e = cc
top_last (x ∷ h) item e =
    let n : length (x ∷ h) - 1 ≡ length h = omega arith in
    (omega arith, rw n (at-get_elem? place_p (x ∷ h) (length h) e))

-- If the item that Top shows is due, Pop takes an item that is due too and launched no later than
-- any other, and leaves an ordered queue of the other items.
pub pop-due :
    (h : List CbItem) (item : CbItem) (now : ℕ)
    → IsQueue h
    → top h ≡ some item
    → item.launch_time < now
    → (x : CbItem) × (rest : List CbItem) × Taken h x rest × (x.launch_time < now)
pop-due h item now v e due =
    let (b, last) = top_last h item e in
    let (x, rest, t) = pop-Taken h v b in
    (x, rest, t, omega (arith, t.first (length h - 1) (omega arith)))
