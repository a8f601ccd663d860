-- ===== src/GoHeap/Order.antt =====
-- The heap order. An entry `x` is placed by the integer `p x - n x`: two numbers, so that both an
-- ascending and a descending order fit.
use real_api_server.Prelude.{ℕ, zero, suc, ◌+◌, ◌-◌, ◌/◌, ◌≤◌, ◌<◌, List, arith}
use real_api_server.GoHeap.Slots.{at}

abbrev pub parent : ℕ → ℕ
parent c = (c - 1) / 2

module _ {A : Type 0} (p n : A → ℕ) where
  -- The entry at `i` is placed no later than the one at `j`.
  abbrev pub LeAt : List A → ℕ → ℕ → Type 0
  LeAt l i j = at p l i + at n l j ≤ at p l j + at n l i

  -- No entry among the first `m` is placed before its parent.
  abbrev pub IsHeapTo : ℕ → List A → Type 0
  IsHeapTo m l = (c : ℕ) → 0 < c → c < m → LeAt l (parent c) c

  root_least_fuel : (k m : ℕ) (l : List A) (i : ℕ) → i < k → IsHeapTo m l → i < m → LeAt l 0 i
  root_least_fuel zero m l i f h b = absurd (omega arith)
  root_least_fuel (suc k) m l zero f h b = omega arith
  root_least_fuel (suc k) m l (suc i) f h b = omega (
    arith,
    h (suc i) (omega arith) b,
    root_least_fuel k m l (parent (suc i)) (omega arith) h (omega arith),
  )

  -- The root of a heap is placed no later than any entry.
  pub root_least : (m : ℕ) (l : List A) (i : ℕ) → IsHeapTo m l → i < m → LeAt l 0 i
  root_least m l i h b = root_least_fuel (suc i) m l i (omega arith) h b
