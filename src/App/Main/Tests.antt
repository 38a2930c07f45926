-- ===== src/App/Main/Tests.antt =====
-- Runs of main.
use s4_mk1_usb2midi.Usb.Connection.{new_device}
use s4_mk1_usb2midi.Common.{refl, ◌∷◌, [], arith, ℕ, true, none, ◌≡◌, false, ◌≤◌, ap, ◌∙◌}
use s4_mk1_usb2midi.Cli.Arguments.Tests.{write_options, write_command, parse_write}
use s4_mk1_usb2midi.Usb.Connection.Tests.{closed, open_runs, s4}
use s4_mk1_usb2midi.Bridge.Loop.Tests.{packet_api}
use s4_mk1_usb2midi.App.Probe.Tests.{answers as probe_answers}
use s4_mk1_usb2midi.App.Main.{
  Answers, main_run, run_parsed, run_mode, run_probe, exits, probe_run, ProbeOutcome, ProbeEnd,
  probing_run,
}
use s4_mk1_usb2midi.App.Probe.Cycles.{written}
use s4_mk1_usb2midi.Usb.{success}
use s4_mk1_usb2midi.Protocol.{s4_tables}
use s4_mk1_usb2midi.App.Main.Exits.{main_run-written, main_run-exits}
use s4_mk1_usb2midi.App.Probe.Completion.{Accepts, probing_run-returns}

abbrev given : Answers
given = record {
  usb_init = success;
  probing = probe_answers;
  bridging = record {
    usb_init = success;
    attempts = [];
    midi = record { client = none; source = none; destination = none };
    events = [];
    signalled = false;
  };
}

write_exits : (main_run s4_tables packet_api given write_command).ending ≡ exits 0
unfolding main_run run_parsed run_mode run_probe probe_run new_device Accepts
write_exits =
    ap (λ p. (run_parsed s4_tables packet_api given p).ending) parse_write
    ∙ ap
        (λ (x : ProbeOutcome ProbeEnd).
          let p = probing_run write_options probe_answers closed in
          (probe_run x p.events p.device).ending)
        (probing_run-returns write_options probe_answers closed (s4 ∷ []) 7 refl refl (omega arith)
          refl refl (ap (λ r. r.result) open_runs) (ap (λ r. r.device.handle) open_runs)
          (λ n. (refl, refl)))

main_run-written_example :
    written 1 (main_run s4_tables packet_api given write_command).events
    ≡ (5 ∷ 6 ∷ []) ∷ (5 ∷ 6 ∷ []) ∷ []
main_run-written_example =
    main_run-written s4_tables packet_api given write_command write_options parse_write refl refl
      (omega arith) write_exits

main_run-exits_example :
    let m = main_run s4_tables packet_api given write_command in
    ((n : ℕ) → m.ending ≡ exits n → n ≤ 1) × (m.usage ≡ true → m.ending ≡ exits 1)
main_run-exits_example = main_run-exits s4_tables packet_api given write_command
