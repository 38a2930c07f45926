-- ===== src/Init/Tests.antt =====
-- Runs of cmd and led_async, one of them to a timeout.
use mathlib.Core.Path.{subst}
use s4_mk1_usb2midi.Common.{◌≡◌, refl, ◌∷◌, [], some, none, true, false, ℕ, ◌≢◌, List, arith}
use s4_mk1_usb2midi.Usb.{success, failure, timeout}
use s4_mk1_usb2midi.Init.Flight.{flying, held}
use s4_mk1_usb2midi.Init.{
  Completion, CmdReplies, LedReplies, led_async, cmd, Ending, completed, Round, cancelled,
  run_callbacks, InitError, xfer_cb, threw, led_timeout, returned, cmd_timeout, still_waiting,
}
use s4_mk1_usb2midi.Init.Flight.Leds.{led_async-IsClean}
use s4_mk1_usb2midi.Init.Flight.Commands.{cmd-IsClean, replies, returned_frees_all, cmd-leaves}
use s4_mk1_usb2midi.Init.Deadline.{any_late, cmd-ends}
use s4_mk1_usb2midi.Init.LedDeadline.{completed_by, led_async-ends}

abbrev completes : ℕ → ℕ → Completion
completes i n = record { id = i; status = completed; actual_length = n }

abbrev on_time : List Completion → Round
on_time cs = record { completions = cs; late = false }

abbrev too_late : List Completion → Round
too_late cs = record { completions = cs; late = true }

abbrev good_command : CmdReplies
good_command = record {
  is_open = true;
  in_t = some 1;
  out_t = some 2;
  in_rc = success;
  out_rc = success;
  rounds = on_time (completes 2 1 ∷ []) ∷ on_time (completes 1 64 ∷ []) ∷ [];
}

abbrev slow_led : LedReplies
slow_led = record {
  led_t = some 3;
  led_rc = success;
  rounds =
      too_late [] ∷ on_time (record { id = 3; status = cancelled; actual_length = 0 } ∷ []) ∷ [];
}

slow_led_throws : (led_async (0xff ∷ 0xaa ∷ []) slow_led).ending ≡ threw led_timeout
unfolding led_async run_callbacks xfer_cb
slow_led_throws = refl

good_command_returns : (cmd (0x01 ∷ []) good_command).ending ≡ returned
unfolding cmd run_callbacks xfer_cb
good_command_returns = refl

-- A command whose response never comes: the deadline passes with both transfers in flight.
late_command : CmdReplies
late_command = record good_command { rounds = on_time [] ∷ too_late [] ∷ [] }

late_command_throws : (cmd (0x01 ∷ []) late_command).ending ≡ threw cmd_timeout
unfolding cmd run_callbacks xfer_cb late_command
late_command_throws = refl

threw_ends : (x : Ending) (e : InitError) → x ≡ threw e → x ≢ still_waiting
threw_ends x e h k = ground arith

one_two : (i o : ℕ) → some 1 ≡ some i → some 2 ≡ some o → i ≢ o
one_two i o h k = ground arith

led_async-IsClean_example :
    (flying (led_async (0xff ∷ 0xaa ∷ []) slow_led).calls [] ≡ some [])
    × (held (led_async (0xff ∷ 0xaa ∷ []) slow_led).calls [] ≡ [])
led_async-IsClean_example =
    led_async-IsClean (0xff ∷ 0xaa ∷ []) slow_led (threw_ends _ led_timeout slow_led_throws)

cmd-IsClean_example :
    (flying (cmd (0x01 ∷ []) good_command).calls [] ≡ some [])
    × (held (cmd (0x01 ∷ []) good_command).calls [] ≡ [])
cmd-IsClean_example =
    cmd-IsClean (0x01 ∷ []) good_command one_two (returned_frees_all _ good_command_returns)

cmd-leaves_example :
    (flying (cmd (0x01 ∷ []) (replies (some 1) (some 2) (failure timeout) [])).calls [] ≡ none)
    × (flying (cmd (0x01 ∷ []) (replies (some 1) (some 2) success (too_late [] ∷ []))).calls []
        ≡ none)
    × (held (cmd (0x01 ∷ []) (replies (some 1) none (failure timeout) [])).calls [] ≡ 1 ∷ [])
    × (held (cmd (0x01 ∷ []) (replies none (some 2) (failure timeout) [])).calls [] ≡ 2 ∷ [])
cmd-leaves_example = cmd-leaves (0x01 ∷ []) 1 2 timeout []

late_command_late : any_late late_command.rounds ≡ true
unfolding late_command any_late
late_command_late = refl

cmd-ends_example : (cmd (0x01 ∷ []) late_command).ending ≢ still_waiting
cmd-ends_example = cmd-ends (0x01 ∷ []) late_command late_command_late

completed_3 : completed_by 3 slow_led.rounds ≡ true
unfolding completed_by
completed_3 = refl

slow_led_completed : (t : ℕ) → slow_led.led_t ≡ some t → completed_by t slow_led.rounds ≡ true
slow_led_completed t h =
    subst (λ (x : ℕ). completed_by x slow_led.rounds ≡ true) (three t h) completed_3
  where
    three : (t' : ℕ) → some 3 ≡ some t' → 3 ≡ t'
    three t' k = ground arith

led_async-ends_example : (led_async (0xff ∷ 0xaa ∷ []) slow_led).ending ≢ still_waiting
led_async-ends_example = led_async-ends (0xff ∷ 0xaa ∷ []) slow_led slow_led_completed
