-- ===== src/Status/Sample/Tests.antt =====
-- Concrete schedules.
use real_api_server.Prelude.{
  ◌≡◌, ◌⊎◌, ◌<◌, refl, true, false, some, List, [], ◌∷◌, arith, replicate,
}
use real_api_server.Prelude.Int.{pos}
use real_api_server.Status.Sample.{
  Ctrl, Action, sample_done, sample_ready, get_sample_status, ready_sample, start_ready, tick_ready,
  take_tick, init, step, run,
}
use real_api_server.Status.Sample.Invariant.{IsSound, run-IsSound}
use real_api_server.Status.Sample.Stuck.{take_tick_stuck}
use real_api_server.Status.Sample.Cycle.{next, step-next, tick_ready-counts}

init-IsSound : IsSound init
init-IsSound = record {
  calm = refl;
  in_ready = refl;
  in_doing = refl;
  in_done = refl;
  ticking = refl;
  resettable = refl;
  sending = λ h. refl;
  sent_in_done = λ h. absurd (omega arith);
}

abbrev to_ready : List Action
to_ready = get_sample_status ∷ ready_sample 2 ∷ start_ready ∷ []

abbrev in_ready : Ctrl
in_ready = record init {
  sample_status = sample_ready;
  remain_sec = pos 2;
  ticker = true;
  ready_loop = 1;
}

to_ready_eq : run to_ready init ≡ some in_ready
unfolding run
to_ready_eq = refl

run-IsSound_example : IsSound in_ready
run-IsSound_example = run-IsSound to_ready init in_ready init-IsSound to_ready_eq

abbrev asked : Ctrl
asked = record init { ready_calls = 1 }

abbrev began : Ctrl
began = record init { sample_status = sample_ready; remain_sec = pos 9; ready_start = 1 }

began_eq : step (ready_sample 9) asked ≡ some began
unfolding step
began_eq = refl

step-next_example :
    (began.sample_status ≡ asked.sample_status) ⊎ (began.sample_status ≡ next asked.sample_status)
step-next_example = step-next (ready_sample 9) asked began step-IsSound_done began_eq
  where
    step-IsSound_done : IsSound asked
    step-IsSound_done = record {
      calm = refl;
      in_ready = refl;
      in_doing = refl;
      in_done = refl;
      ticking = refl;
      resettable = refl;
      sending = λ h. refl;
      sent_in_done = λ h. absurd (omega arith);
    }

tick_ready-counts_example :
    run (replicate 2 tick_ready) in_ready
    ≡ some (record in_ready { remain_sec = pos 0; ticker = false; ready_loop = 0; do_calls = 1 })
tick_ready-counts_example = tick_ready-counts 1 in_ready (omega arith) refl refl

abbrev waiting : Ctrl
waiting = record init {
  sample_status = sample_done;
  remain_sec = pos 300;
  ticker = true;
  reset = true;
  done_select = 1;
}

waiting-IsSound : IsSound waiting
waiting-IsSound = record {
  calm = refl;
  in_ready = refl;
  in_doing = refl;
  in_done = refl;
  ticking = refl;
  resettable = refl;
  sending = λ h. refl;
  sent_in_done = λ h. refl;
}

abbrev stuck : Ctrl
stuck = record waiting { done_select = 0; done_tick = 1; senders = 2 }

stuck_eq : run (get_sample_status ∷ take_tick ∷ get_sample_status ∷ []) waiting ≡ some stuck
unfolding run
stuck_eq = refl

take_tick_stuck_example :
    (stuck.sample_status ≡ sample_done) × (stuck.remain_sec ≡ pos 300) × (0 < stuck.senders)
take_tick_stuck_example =
    take_tick_stuck (get_sample_status ∷ []) waiting stuck waiting-IsSound (omega arith) stuck_eq
