-- ===== src/Init/Sequence.antt =====
-- The drain of endpoint 0x84 and s4_mk1_init of src/s4_init.cpp, over the packets of Init/Packets.
pub mod Delivery
pub mod Drain
pub mod Tests
use s4_mk1_usb2midi.Common.{
  ℕ, suc, Bool, true, false, Option, none, some, List, [], ◌∷◌, ◌++◌, if◌then◌else◌,
}
use s4_mk1_usb2midi.Usb.{Rc, success, failure}
use s4_mk1_usb2midi.Init.{
  XferStatus, AsyncCall, CmdReplies, Ending, other_status, cancel, LedReplies, alloc, threw,
  returned, free, submit, cmd, cancelled, still_waiting, no_device, led_async, error, completed,
}
use s4_mk1_usb2midi.Init.Packets.{InitStep, init_steps, command, led, start_drain, stop_drain}

-- `t` is `none` for the null pointer.
pub record Drain84 : Type 0 where
  pub t : Option ℕ
  pub active : Bool

-- The call of the drain's callback: the status, and what the submission in it answers.
abbrev pub DrainEvent : Type 0
DrainEvent = XferStatus × Rc

resubmit : Rc → Drain84 → Drain84
resubmit success d = d
resubmit (failure e) d = record d { active = false }

-- `none` is a null transfer or a null `user_data`.
pub drain84_cb : Option DrainEvent → Drain84 → Drain84
unfolding resubmit
drain84_cb none d = d
drain84_cb (some (cancelled, rc)) d = record d { active = false }
drain84_cb (some (no_device, rc)) d = record d { active = false }
drain84_cb (some (error, rc)) d = record d { active = false }
drain84_cb (some (completed, rc)) d = resubmit rc d
drain84_cb (some (other_status n, rc)) d = resubmit rc d

pub drain_events : List DrainEvent → Drain84 → Drain84
unfolding drain84_cb
drain_events [] d = d
drain_events (e ∷ es) d = drain_events es (drain84_cb (some e) d)

pub start_drain84 : Option ℕ → Rc → Drain84 → Drain84
start_drain84 none rc d = record d { t = none }
start_drain84 (some t) success d = record { t = some t; active = true }
start_drain84 (some t) (failure e) d = record { t = some t; active = false }

-- The rounds of the event loop before the deadline of 500 ms, while the drain is active.
pub drain_wait : List (List DrainEvent) → Drain84 → Drain84
unfolding drain_events
drain_wait [] d = d
drain_wait (es ∷ rounds) d =
    let rest = drain_wait rounds (drain_events es d) in if d.active then rest else d

-- The transfer is freed after the wait, whether or not the drain is still active.
pub record Stopped : Type 0 where
  pub drain : Drain84
  pub calls : List AsyncCall
  pub still_active : Bool

stop_started : Option ℕ → List (List DrainEvent) → Drain84 → Stopped
unfolding drain_wait
stop_started none rounds d = record { drain = d; calls = []; still_active = d.active }
stop_started (some t) rounds d = record {
  drain = record { t = none; active = false };
  calls = if d.active then cancel t ∷ free t ∷ [] else free t ∷ [];
  still_active = (drain_wait rounds d).active;
}

pub stop_drain84 : List (List DrainEvent) → Drain84 → Stopped
unfolding stop_started
stop_drain84 rounds d = stop_started d.t rounds d

-- What libusb answers in one step; `events` are the callbacks of the drain in that step.
pub record StepReplies : Type 0 where
  pub cmd_replies : CmdReplies
  pub led_replies : LedReplies
  pub events : List DrainEvent
  pub drain_t : Option ℕ
  pub drain_rc : Rc
  pub drain_rounds : List (List DrainEvent)

pub record InitRun : Type 0 where
  pub calls : List AsyncCall
  pub drain : Drain84
  pub ending : Ending

abbrev started : Option ℕ → Rc → List AsyncCall
started none rc = alloc none ∷ []
started (some t) rc = alloc (some t) ∷ submit t 0x84 [] rc ∷ []

pub run_step : InitStep → StepReplies → Drain84 → InitRun
unfolding drain_events
run_step (command bytes) r d =
    let c = cmd bytes r.cmd_replies in
    record { calls = c.calls; drain = drain_events r.events d; ending = c.ending }
run_step (led bytes) r d =
    let c = led_async bytes r.led_replies in
    record { calls = c.calls; drain = drain_events r.events d; ending = c.ending }
run_step start_drain r d = record {
  calls = started r.drain_t r.drain_rc;
  drain = start_drain84 r.drain_t r.drain_rc d;
  ending = returned;
}
run_step stop_drain r d =
    let s = stop_drain84 r.drain_rounds d in
    record { calls = s.calls; drain = s.drain; ending = returned }

-- A step that throws ends the sequence.
next_step : Ending → InitRun → InitRun → InitRun
next_step returned r rest = record rest { calls = r.calls ++ rest.calls }
next_step (threw e) r rest = r
next_step still_waiting r rest = r

module _ (replies : ℕ → StepReplies) where
  pub run_steps : ℕ → List InitStep → Drain84 → InitRun
  unfolding run_step next_step
  run_steps n [] d = record { calls = []; drain = d; ending = returned }
  run_steps n (step ∷ steps) d =
      let r = run_step step (replies n) d in
      let rest = run_steps (suc n) steps r.drain in next_step r.ending r rest

  pub s4_mk1_init : Drain84 → InitRun
  unfolding run_steps
  s4_mk1_init d = run_steps 0 init_steps d
