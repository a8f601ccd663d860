-- ===== src/Status/Sample/Invariant.antt =====
-- The invariant of the sampling controller of status/ctrl.go.
use real_api_server.Prelude.{
  ℕ, ◌+◌, ◌<◌, ◌≡◌, inl, inr, Bool, false, some, List, [], ◌∷◌, arith, ltb, Option-cases,
  if◌then◌else◌,
}
use real_api_server.Status.Sample.{
  sample_done, is_ready, is_doing, is_done, Ctrl, Action, get_sample_status, step, run,
}

abbrev one_if : Bool → ℕ
one_if b = if b then 1 else 0

-- The goroutine of each phase is there exactly in that phase, and `ticker` and `reset` are set
-- exactly while it is in its loop.
pub record IsSound (c : Ctrl) : Type 0 where
  pub calm : c.panicked ≡ false
  pub in_ready : c.ready_start + c.ready_loop + c.do_calls ≡ one_if (is_ready c.sample_status)
  pub in_doing : c.doing_start + c.doing_loop + c.done_calls ≡ one_if (is_doing c.sample_status)
  pub in_done :
      c.done_start + c.done_select + c.done_tick + c.done_reset ≡ one_if (is_done c.sample_status)
  pub ticking :
      c.ticker ≡ ltb 0 (c.ready_loop + c.doing_loop + c.done_select + c.done_tick + c.done_reset)
  pub resettable : c.reset ≡ ltb 0 (c.done_select + c.done_tick + c.done_reset)
  pub sending : 0 < c.senders → c.done_start ≡ 0
  pub sent_in_done : 0 < c.senders → c.sample_status ≡ sample_done

pub step-IsSound : (a : Action) (c d : Ctrl) → IsSound c → step a c ≡ some d → IsSound d
unfolding step
step-IsSound get_sample_status c d v h = ground arith
step-IsSound a c d v h = ground arith

pub run-IsSound : (acts : List Action) (c d : Ctrl) → IsSound c → run acts c ≡ some d → IsSound d
unfolding run
run-IsSound [] c d v h = ground arith
run-IsSound (a ∷ rest) c d v h = elim (Option-cases (step a c)) [
  | inl e ↦ absurd (ground arith)
  | inr (b, e) ↦ run-IsSound rest b d (step-IsSound a c b v e) (ground arith)
]
