-- ===== src/Util/Shuffle.antt =====
-- Shuffle of util/util.go. `draw i` is the result of `rand.Intn(i + 1)`.
use real_api_server.Prelude.{ℕ, zero, suc, ◌-◌, ◌≤◌, ◌<◌, refl, List, [], ◌∷◌, arith, length}
use real_api_server.GoHeap.{swap}
use real_api_server.GoHeap.Slots.{Same, swap-Same, length-swap}

module _ {A : Type 0} (draw : ℕ → ℕ) where
  -- for i := ...; i > 0; i--
  unfoldable pub shuffle_down : ℕ → List A → List A
  unfolding swap
  shuffle_down zero arr = arr
  shuffle_down (suc i) arr = shuffle_down i (swap arr (suc i) (draw (suc i)))

  unfoldable pub shuffle : List A → List A
  unfolding shuffle_down
  shuffle arr = shuffle_down (length arr - 1) arr

  shuffle_down-Same :
      ((i : ℕ) → draw i ≤ i)
      → (i : ℕ) (arr : List A) → i < length arr
      → Same (shuffle_down i arr) arr
  unfolding shuffle_down
  shuffle_down-Same bound zero arr h = λ w. refl
  shuffle_down-Same bound (suc i) arr h =
      let hd = bound (suc i) in
      let n = length-swap arr (suc i) (draw (suc i)) h (omega arith) in
      let s = swap-Same arr (suc i) (draw (suc i)) h (omega arith) in
      λ w. omega (
        arith,
        s w,
        shuffle_down-Same bound i (swap arr (suc i) (draw (suc i))) (omega (arith, n)) w,
      )

  -- If every draw of Intn(i + 1) is at most i, Shuffle keeps the entries of the slice, each as often.
  pub shuffle-Same : ((i : ℕ) → draw i ≤ i) → (arr : List A) → Same (shuffle arr) arr
  unfolding shuffle shuffle_down
  shuffle-Same bound [] = λ w. refl
  shuffle-Same bound (x ∷ arr) =
      shuffle_down-Same bound (length (x ∷ arr) - 1) (x ∷ arr) (omega arith)
