-- ===== src/Status/Sample.antt =====
-- status/ctrl.go: the sampling controller, its goroutines and its lock.
-- Goroutines at one point of the code are alike, so the state counts them. A critical section is one
-- step; only a reader that sends on the reset channel stays inside its read lock, as `senders`.
-- The write lock is free while no reader is inside. Readers may always enter: that allows every
-- schedule of Go's lock, which makes them wait behind a waiting writer.
pub mod Invariant
pub mod Stuck
pub mod Cycle
mod Tests
use real_api_server.Prelude.{
  ℕ, zero, suc, ◌+◌, ◌-◌, Bool, true, false, not, ◌&&◌, ◌||◌, Option, none, some, List, [], ◌∷◌,
  ltb, ◌==◌, nat_eq, if◌then◌else◌,
}
use real_api_server.Prelude.Int.{ℤ, pos, ◌-ℤ◌, leb_ℤ}

pub data SampleStatus : Type 0 where
  sample_no sample_ready sample_doing sample_done : SampleStatus

abbrev pub is_no : SampleStatus → Bool
is_no sample_no = true
is_no _ = false

abbrev pub is_ready : SampleStatus → Bool
is_ready sample_ready = true
is_ready _ = false

abbrev pub is_doing : SampleStatus → Bool
is_doing sample_doing = true
is_doing _ = false

abbrev pub is_done : SampleStatus → Bool
is_done sample_done = true
is_done _ = false

pub record Ctrl : Type 0 where
  pub sample_status : SampleStatus
  pub remain_sec : ℤ
  -- whether `ticker` and `reset` are other than nil
  pub ticker : Bool
  pub reset : Bool
  pub panicked : Bool
  -- `go c.readySample(sec)` not yet run
  pub ready_calls : ℕ
  -- the goroutine of readySample before its check of `ticker`, and in its loop
  pub ready_start : ℕ
  pub ready_loop : ℕ
  pub do_calls : ℕ
  pub doing_start : ℕ
  pub doing_loop : ℕ
  pub done_calls : ℕ
  pub done_start : ℕ
  -- the goroutine of doneSample in its select, and after a tick or a reset before the lock
  pub done_select : ℕ
  pub done_tick : ℕ
  pub done_reset : ℕ
  -- readers in `c.reset <- true`
  pub senders : ℕ

abbrev pub init : Ctrl
init = record {
  sample_status = sample_no;
  remain_sec = pos 0;
  ticker = false;
  reset = false;
  panicked = false;
  ready_calls = 0;
  ready_start = 0;
  ready_loop = 0;
  do_calls = 0;
  doing_start = 0;
  doing_loop = 0;
  done_calls = 0;
  done_start = 0;
  done_select = 0;
  done_tick = 0;
  done_reset = 0;
  senders = 0;
}

-- The steps that a schedule chooses from. `ready_sample` carries the seconds of its call.
pub data Action : Type 0 where
  get_sample_status : Action
  ready_sample : ℕ → Action
  start_ready tick_ready do_sample start_doing tick_doing : Action
  done_sample start_done take_tick handle_tick take_reset handle_reset : Action

-- The bodies of the critical sections and of the goroutines' first steps.
pub read_status : Ctrl → Ctrl
read_status c =
    if is_done c.sample_status
    then (if c.reset then record c { senders = c.senders + 1 } else c)
    else if is_no c.sample_status
    then record c { ready_calls = c.ready_calls + 1 }
    else c

pub ready : ℕ → Ctrl → Ctrl
ready sec c =
    if not (is_no c.sample_status) then record c { ready_calls = c.ready_calls - 1 } else record c {
      ready_calls = c.ready_calls - 1;
      sample_status = sample_ready;
      remain_sec = pos sec;
      ready_start = c.ready_start + 1;
    }

pub begin_ready : Ctrl → Ctrl
begin_ready c =
    if c.ticker
    then record c { ready_start = c.ready_start - 1; panicked = true }
    else record c { ready_start = c.ready_start - 1; ticker = true; ready_loop = c.ready_loop + 1 }

pub count_ready : Ctrl → Ctrl
count_ready c =
    if leb_ℤ (c.remain_sec -ℤ pos 1) (pos 0)
    then record c {
      remain_sec = c.remain_sec -ℤ pos 1;
      ticker = false;
      ready_loop = c.ready_loop - 1;
      do_calls = c.do_calls + 1;
    }
    else record c { remain_sec = c.remain_sec -ℤ pos 1 }

pub begin_sampling : Ctrl → Ctrl
begin_sampling c =
    if not (is_ready c.sample_status) then record c { do_calls = c.do_calls - 1 } else record c {
      do_calls = c.do_calls - 1;
      sample_status = sample_doing;
      remain_sec = pos 60;
      doing_start = c.doing_start + 1;
    }

pub begin_doing : Ctrl → Ctrl
begin_doing c =
    if c.ticker
    then record c { doing_start = c.doing_start - 1; panicked = true }
    else record c { doing_start = c.doing_start - 1; ticker = true; doing_loop = c.doing_loop + 1 }

pub count_doing : Ctrl → Ctrl
count_doing c =
    if leb_ℤ (c.remain_sec -ℤ pos 1) (pos 0)
    then record c {
      remain_sec = c.remain_sec -ℤ pos 1;
      ticker = false;
      doing_loop = c.doing_loop - 1;
      done_calls = c.done_calls + 1;
    }
    else record c { remain_sec = c.remain_sec -ℤ pos 1 }

pub end_sampling : Ctrl → Ctrl
end_sampling c =
    if not (is_doing c.sample_status)
    then record c { done_calls = c.done_calls - 1 }
    else record c {
      done_calls = c.done_calls - 1;
      sample_status = sample_done;
      remain_sec = pos 300;
      done_start = c.done_start + 1;
    }

pub begin_done : Ctrl → Ctrl
begin_done c =
    if c.ticker || c.reset
    then record c { done_start = c.done_start - 1; panicked = true }
    else record c {
      done_start = c.done_start - 1;
      ticker = true;
      reset = true;
      done_select = c.done_select + 1;
    }

pub count_done : Ctrl → Ctrl
count_done c =
    if leb_ℤ (c.remain_sec -ℤ pos 1) (pos 0)
    then record c {
      remain_sec = c.remain_sec -ℤ pos 1;
      reset = false;
      sample_status = sample_no;
      ticker = false;
      done_tick = c.done_tick - 1;
    }
    else record c {
      remain_sec = c.remain_sec -ℤ pos 1;
      done_tick = c.done_tick - 1;
      done_select = c.done_select + 1;
    }

pub reset_done : Ctrl → Ctrl
reset_done c = record c {
  remain_sec = pos 300;
  done_reset = c.done_reset - 1;
  done_select = c.done_select + 1;
}

-- A step is possible where its goroutine is at that point and, for a write lock, no reader is in.
abbrev pub locked : ℕ → Ctrl → Bool
locked n c = ltb 0 n && c.senders == 0

abbrev pub when : Bool → Ctrl → Option Ctrl
when true c = some c
when false c = none

pub step : Action → Ctrl → Option Ctrl
unfolding read_status ready begin_ready count_ready begin_sampling begin_doing count_doing
    end_sampling begin_done count_done reset_done
step get_sample_status c = some (read_status c)
step (ready_sample sec) c = when (locked c.ready_calls c) (ready sec c)
step start_ready c = when (ltb 0 c.ready_start) (begin_ready c)
step tick_ready c = when (locked c.ready_loop c) (count_ready c)
step do_sample c = when (locked c.do_calls c) (begin_sampling c)
step start_doing c = when (ltb 0 c.doing_start) (begin_doing c)
step tick_doing c = when (locked c.doing_loop c) (count_doing c)
step done_sample c = when (locked c.done_calls c) (end_sampling c)
step start_done c = when (ltb 0 c.done_start) (begin_done c)
step take_tick c =
    when (ltb 0 c.done_select)
      (record c { done_select = c.done_select - 1; done_tick = c.done_tick + 1 })
step handle_tick c = when (locked c.done_tick c) (count_done c)
step take_reset c = when (ltb 0 c.done_select && ltb 0 c.senders) (record c {
  senders = c.senders - 1;
  done_select = c.done_select - 1;
  done_reset = c.done_reset + 1;
})
step handle_reset c = when (locked c.done_reset c) (reset_done c)

-- A schedule; `none` if one of its steps is not possible.
pub run : List Action → Ctrl → Option Ctrl
unfolding step
run [] c = some c
run (a ∷ rest) c = elim (step a c) [ none ↦ none | some d ↦ run rest d ]
