-- ===== src/Callback/Retry.antt =====
-- The attempts of the serving loop of tpl/s2s_heap.go.
use real_api_server.Prelude.{
  ℕ, zero, suc, ◌-◌, ◌≤◌, ◌<◌, ◌≡◌, Bool, Option, none, some, List, arith, ltb, if◌then◌else◌,
  Bool-cases, Option-cases, inl, inr,
}
use real_api_server.Prelude.Run.{ok}
use real_api_server.GoHeap.Slots.{weigh}
use real_api_server.Callback.{CbItem, push, top, attempted, serve_one, serve}
use real_api_server.Callback.Order.{IsQueue, pop-due, push-IsQueue}

-- 1 for an item that Push would drop
abbrev pub worn : CbItem → ℕ
worn x = if ltb 3 x.fail_count then 1 else 0

-- the attempts that are left to an item
abbrev pub budget : CbItem → ℕ
budget x = 4 - x.fail_count

-- An ordered queue in which no item has failed more than three times.
pub record IsLive (h : List CbItem) : Type 0 where
  pub order : IsQueue h
  pub fresh : weigh worn h ≡ 0

-- There is no item, or it is not due.
abbrev pub Waits : ℕ → Option CbItem → Type 0
Waits now none = Unit
Waits now (some x) = now ≤ x.launch_time

module _ (reply : CbItem → Bool) where
  -- A round on a queue whose top is due costs at least one attempt of the budget.
  serve_one-IsLive :
      (h : List CbItem) (item : CbItem) (now : ℕ)
      → IsLive h
      → top h ≡ some item
      → item.launch_time < now
      → (h' : List CbItem) × (serve_one reply h ≡ ok h')
        × IsLive h'
        × (weigh budget h' < weigh budget h)
  unfolding serve_one attempted
  serve_one-IsLive h item now v e due =
      let (x, rest, t, d) = pop-due h item now v.order e due in
      let (order, same) = push-IsQueue rest (attempted x) t.order in
      let mine = t.same worn in
      let cost = t.same budget in
      elim (Bool-cases (reply (attempted x))) [
        | inl done ↦ (
          rest,
          rw (t.result, serve_one, done),
          record { order = t.order; fresh = ground (arith, v.fresh) },
          ground (arith, v.fresh),
        )
        | inr failed ↦ (
          push rest (attempted x),
          rw (t.result, serve_one, failed),
          record { order = order; fresh = ground (arith, v.fresh, same worn) },
          ground (arith, v.fresh, same budget),
        )
      ]

  -- With more fuel than attempts are left in all, the loop of Serve does not panic and ends: the
  -- queue that it leaves is ordered, holds no item that has failed more than three times, and is
  -- empty or shows at its top an item that is not due.
  pub serve_ends :
      (fuel now : ℕ) (h : List CbItem)
      → IsLive h
      → weigh budget h < fuel
      → (h' : List CbItem) × (serve reply fuel now h ≡ ok (some h'))
        × IsLive h'
        × Waits now (top h')
  unfolding serve
  serve_ends zero now h v b = absurd (omega arith)
  serve_ends (suc fuel) now h v b = elim (Option-cases (top h)) [
    | inl empty ↦ (h, rw (empty, serve), v, rw empty tt)
    | inr (item, e) ↦ elim (Bool-cases (ltb item.launch_time now)) [
      | inl due ↦
          let (h', r, v', less) = serve_one-IsLive h item now v e (ground arith) in
          let (h'', r', v'', stop) = serve_ends fuel now h' v' (omega arith) in
          (h'', rw (e, serve, due, r) r', v'', stop)
      | inr later ↦ (h, rw (e, serve, later), v, rw e (ground arith))
    ]
  ]
