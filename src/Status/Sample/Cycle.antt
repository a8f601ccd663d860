-- ===== src/Status/Sample/Cycle.antt =====
-- The order of the phases of status/ctrl.go, and the ticks of the phase "ready".
use real_api_server.Prelude.{
  ℕ, zero, suc, ◌+◌, ◌-◌, nat_eq, ◌<◌, ◌≡◌, ◌⊎◌, refl, false, some, arith, replicate,
}
use real_api_server.Prelude.Int.{pos, ◌-ℤ◌}
use real_api_server.Status.Sample.Invariant.{IsSound}
use real_api_server.Status.Sample.{
  SampleStatus, sample_no, sample_ready, sample_doing, sample_done, Ctrl, Action, get_sample_status,
  tick_ready, step, run,
}

abbrev pub next : SampleStatus → SampleStatus
next sample_no = sample_ready
next sample_ready = sample_doing
next sample_doing = sample_done
next sample_done = sample_no

-- Every step from a sound state leaves the status, or moves it to the next of the cycle no, ready,
-- doing, done, no.
pub step-next :
    (a : Action) (c d : Ctrl)
    → IsSound c
    → step a c ≡ some d
    → (d.sample_status ≡ c.sample_status) ⊎ (d.sample_status ≡ next c.sample_status)
unfolding step
step-next get_sample_status c d v h = ground arith
step-next a c d v h = ground arith

abbrev left_loop : Ctrl → Ctrl
left_loop c = record c {
  remain_sec = pos 0;
  ticker = false;
  ready_loop = c.ready_loop - 1;
  do_calls = c.do_calls + 1;
}

tick_last :
    (c : Ctrl)
    → 0 < c.ready_loop
    → c.senders ≡ 0
    → c.remain_sec ≡ pos 1
    → step tick_ready c ≡ some (left_loop c)
unfolding step ◌-ℤ◌
tick_last c h k e = ground arith

tick_more :
    (c : Ctrl) (n : ℕ)
    → 0 < c.ready_loop
    → c.senders ≡ 0
    → c.remain_sec ≡ pos (suc (suc n))
    → step tick_ready c ≡ some (record c { remain_sec = pos (suc n) })
unfolding step ◌-ℤ◌
tick_more c n h k e = ground arith

-- While the goroutine of readySample is in its loop, no reader is inside and `n + 1` seconds remain,
-- `n + 1` ticks end its loop: the ticker is gone, and the call of doSample is due.
pub tick_ready-counts :
    (n : ℕ) (c : Ctrl)
    → 0 < c.ready_loop
    → c.senders ≡ 0
    → c.remain_sec ≡ pos (suc n)
    → run (replicate (suc n) tick_ready) c ≡ some (left_loop c)
unfolding run
tick_ready-counts zero c h k e = rw (tick_last c h k e, run)
tick_ready-counts (suc n) c h k e =
    rw (tick_more c n h k e, run)
      (tick_ready-counts n (record c { remain_sec = pos (suc n) }) h k refl)
