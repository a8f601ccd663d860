-- ===== src/Status/Sample/Stuck.antt =====
-- The reset of the phase "done" in status/ctrl.go: a reader that sends and a receiver that ticks.
use mathlib.Core.Path.{subst}
use mathlib.Core.Option.{some-injective}
use real_api_server.Prelude.{◌<◌, ◌≡◌, some, List, [], ◌∷◌, arith, Option-cases, inl, inr}
use real_api_server.Prelude.Int.{ℤ}
use real_api_server.Status.Sample.{
  sample_done, Ctrl, Action, get_sample_status, take_tick, step, run,
}
use real_api_server.Status.Sample.Invariant.{IsSound, step-IsSound}

-- A reader sends, and the goroutine has taken a tick; no other goroutine is there.
record IsStuck (sec : ℤ) (c : Ctrl) : Type 0 where
  sound : IsSound c
  done : c.sample_status ≡ sample_done
  sends : 0 < c.senders
  ticked : c.done_tick ≡ 1
  seconds : c.remain_sec ≡ sec

step-IsStuck :
    (a : Action) (c d : Ctrl) {sec : ℤ} → IsStuck sec c → step a c ≡ some d → IsStuck sec d
unfolding step
step-IsStuck a c d v h = record {
  sound = step-IsSound a c d v.sound h;
  done = done a v h;
  sends = sends a v h;
  ticked = ticked a v h;
  seconds = seconds a v h;
}
  where
    done :
        (a : Action) {sec : ℤ} → IsStuck sec c → step a c ≡ some d → d.sample_status ≡ sample_done
    done get_sample_status v h = ground (arith, v.sound)
    done a v h = ground (arith, v.sound)

    sends : (a : Action) {sec : ℤ} → IsStuck sec c → step a c ≡ some d → 0 < d.senders
    sends get_sample_status v h = ground (arith, v.sound)
    sends a v h = ground (arith, v.sound)

    ticked : (a : Action) {sec : ℤ} → IsStuck sec c → step a c ≡ some d → d.done_tick ≡ 1
    ticked get_sample_status v h = ground (arith, v.sound)
    ticked a v h = ground (arith, v.sound)

    seconds : (a : Action) {sec : ℤ} → IsStuck sec c → step a c ≡ some d → d.remain_sec ≡ sec
    seconds get_sample_status v h = ground (arith, v.sound)
    seconds a v h = ground (arith, v.sound)

run-IsStuck :
    (acts : List Action) (c d : Ctrl) {sec : ℤ}
    → IsStuck sec c
    → run acts c ≡ some d
    → IsStuck sec d
unfolding run
run-IsStuck [] c d {sec} v h = subst (IsStuck sec) (some-injective c d h) v
run-IsStuck (a ∷ rest) c d v h = elim (Option-cases (step a c)) [
  | inl e ↦ absurd (ground arith)
  | inr (b, e) ↦ run-IsStuck rest b d (step-IsStuck a c b v e) (ground arith)
]

-- From any sound state whose goroutine waits in the select of doneSample: if a reader asks for the
-- status and then the goroutine takes a tick, then after every further schedule the status is still
-- "done", the remaining seconds are the same, and a reader is still inside its read lock.
pub take_tick_stuck :
    (acts : List Action) (c d : Ctrl)
    → IsSound c
    → 0 < c.done_select
    → run (get_sample_status ∷ take_tick ∷ acts) c ≡ some d
    → (d.sample_status ≡ sample_done) × (d.remain_sec ≡ c.remain_sec) × (0 < d.senders)
unfolding run
take_tick_stuck acts c d v w h = elim (Option-cases (step get_sample_status c)) [
  | inl e ↦ absurd (ground arith)
  | inr (b, e) ↦ elim (Option-cases (step take_tick b)) [
    | inl e' ↦ absurd (ground arith)
    | inr (b', e') ↦
        let sound' = step-IsSound take_tick b b' (step-IsSound get_sample_status c b v e) e' in
        let start : IsStuck c.remain_sec b' = record {
          sound = sound';
          done = unfold step in ground arith;
          sends = unfold step in ground arith;
          ticked = unfold step in ground (arith, sound'.in_done);
          seconds = unfold step in ground arith;
        } in
        let r = run-IsStuck acts b' d start (ground arith) in (r.done, r.seconds, r.sends)
  ]
]
