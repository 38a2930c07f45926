-- ===== src/Init/Sequence/Tests.antt =====
-- Runs of s4_mk1_init: one that returns, and one whose first LED packet of phase 6 is refused.
use s4_mk1_usb2midi.Common.{◌≡◌, refl, ◌∷◌, [], some, none, true, false, ℕ, List}
use s4_mk1_usb2midi.Usb.{success, failure, timeout}
use s4_mk1_usb2midi.Init.{
  Completion, completed, Round, cancelled, led_async, cmd, threw, led_submit_failed, run_callbacks,
  all_done, wait, xfer_cb, new_xfer, check_status, returned,
}
use s4_mk1_usb2midi.Init.Sequence.{
  StepReplies, Drain84, s4_mk1_init, stop_drain84, run_steps, run_step, drain_wait, drain_events,
  drain84_cb, start_drain84,
}
use s4_mk1_usb2midi.Init.Sequence.Delivery.{outgoing, packets_of, s4_mk1_init-delivers}
use s4_mk1_usb2midi.Init.Packets.{led_phases, init_steps}
use s4_mk1_usb2midi.Init.Sequence.Drain.{led_phases-threw}

abbrev pub completes : ℕ → ℕ → Completion
completes i n = record { id = i; status = completed; actual_length = n }

abbrev pub round : List Completion → Round
round cs = record { completions = cs; late = false }

abbrev pub all_well : StepReplies
all_well = record {
  cmd_replies = record {
    is_open = true;
    in_t = some 1;
    out_t = some 2;
    in_rc = success;
    out_rc = success;
    rounds = round (completes 2 1 ∷ completes 1 64 ∷ []) ∷ [];
  };
  led_replies = record {
    led_t = some 3;
    led_rc = success;
    rounds = round (completes 3 32 ∷ []) ∷ [];
  };
  events = [];
  drain_t = some 9;
  drain_rc = success;
  drain_rounds = ((cancelled, success) ∷ []) ∷ [];
}

abbrev led_refused : StepReplies
led_refused = record all_well {
  led_replies = record { led_t = some 3; led_rc = failure timeout; rounds = [] };
}

abbrev pub off : Drain84
off = record { t = none; active = false }

abbrev on : Drain84
on = record { t = some 9; active = true }

pub init_returns : (s4_mk1_init (λ n. all_well) off).ending ≡ returned
unfolding s4_mk1_init run_steps run_step init_steps cmd led_async run_callbacks all_done wait
    xfer_cb new_xfer check_status start_drain84 stop_drain84 drain_events
init_returns = refl

pub init_returns_again : (d : Drain84) → (s4_mk1_init (λ n. all_well) d).ending ≡ returned
unfolding s4_mk1_init run_steps run_step init_steps cmd led_async run_callbacks all_done wait
    xfer_cb new_xfer check_status start_drain84 stop_drain84 drain_events
init_returns_again d = refl

drain_stops : (stop_drain84 all_well.drain_rounds on).still_active ≡ false
unfolding stop_drain84 drain_wait drain_events drain84_cb
drain_stops = refl

led_throws :
    (run_steps (λ n. led_refused) 0 led_phases on).ending ≡ threw (led_submit_failed timeout)
unfolding run_steps run_step led_phases led_async
led_throws = refl

s4_mk1_init-delivers_example :
    outgoing (s4_mk1_init (λ n. all_well) off).calls ≡ packets_of init_steps
s4_mk1_init-delivers_example = s4_mk1_init-delivers (λ n. all_well) off init_returns

led_phases-threw_example : (run_steps (λ n. led_refused) 0 led_phases on).drain.t ≡ some 9
led_phases-threw_example =
    led_phases-threw (λ n. led_refused) 0 on (led_submit_failed timeout) led_throws
