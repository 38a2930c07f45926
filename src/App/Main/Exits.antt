-- ===== src/App/Main/Exits.antt =====
-- The exit codes of main of src/main.cpp, and what a run of the probe mode has done at its end.
use s4_mk1_usb2midi.Common.{
  refl, ℕ, ◌≤◌, ◌≡◌, true, List, Text, arith, ap, map, ◌∙◌, ◌++◌, ◌==◌, false, append-nil, length,
  replicate, pos_part, sym, suc,
}
use s4_mk1_usb2midi.Cli.Arguments.{Mode, probe, bridge}
use s4_mk1_usb2midi.App.Main.{
  MainEnd, MainRun, probe_run, run_probe, bridge_ending, main_run, failed_with, PacketApi, exits,
  ProbeOutcome, AppOptions, BridgeEnd, Answers, ProbeEnd, ProbeReplies, BridgeRun, run_mode,
  run_parsed, Event, Result, returned, new_device, Parsed, UsbDevice, BridgeReplies, parsed,
  parse_args, done, ok, run_bridge, rejected, finished, probing_run, threw, err, usb, delete_device,
}
use s4_mk1_usb2midi.Protocol.{MapTables}
use s4_mk1_usb2midi.App.Probe.Cycles.{written, written-append}
use s4_mk1_usb2midi.Bridge.Whole.{thrown_out, outside_read, running_on}
use s4_mk1_usb2midi.Bridge.Whole.ExitCode.{run_bridge-code}
use s4_mk1_usb2midi.App.Probe.ExitCode.{probing_run-code}
use s4_mk1_usb2midi.App.Probe.{streaming, undefined_read}
use s4_mk1_usb2midi.Usb.{undefined}
use s4_mk1_usb2midi.App.Probe.Delivery.{mute_written, probing_run-written}
use s4_mk1_usb2midi.Usb.Connection.Silence.{delete_device-mute}
use s4_mk1_usb2midi.Usb.Connection.Options.{new_device-options}

exit_code : MainEnd → ℕ
exit_code (exits n) = n
exit_code e = 0

-- The code is 0 or 1, and 1 where the usage was written.
record Sound (m : MainRun) : Type 0 where
  code : exit_code m.ending ≤ 1
  usage : m.usage ≡ true → m.ending ≡ exits 1

probe_run-Sound :
    (x : ProbeOutcome ProbeEnd) (events : List Event) (d : UsbDevice)
    → ((n : ℕ) → x ≡ done (finished n) → n ≡ 0)
    → Sound (probe_run x events d)
unfolding probe_run failed_with exit_code
probe_run-Sound (done (finished n)) events d h = record {
  code = omega (arith, h n refl);
  usage = λ e. ground arith;
}
probe_run-Sound (done streaming) events d h = record {
  code = omega arith;
  usage = λ e. ground arith;
}
probe_run-Sound (threw e) events d h = record { code = omega arith; usage = λ e. refl }
probe_run-Sound undefined_read events d h = record { code = omega arith; usage = λ e. ground arith }

run_probe-Sound :
    (o : AppOptions) (r : ProbeReplies) (made : Result UsbDevice) → Sound (run_probe o r made)
unfolding run_probe failed_with exit_code
run_probe-Sound o r (ok d) =
    let p = probing_run o r d in
    probe_run-Sound p.outcome p.events p.device (probing_run-code o r d)
run_probe-Sound o r (err e) = record { code = omega arith; usage = λ e. refl }
run_probe-Sound o r undefined = record { code = omega arith; usage = λ e. ground arith }

bridge_ending-Sound :
    (e : BridgeEnd) (run : BridgeRun)
    → ((n : ℕ) → e ≡ returned n → n ≤ 1)
    → Sound (bridge_ending e run)
unfolding bridge_ending failed_with exit_code
bridge_ending-Sound (returned n) run h = record { code = h n refl; usage = λ e. ground arith }
bridge_ending-Sound thrown_out run h = record { code = omega arith; usage = λ e. refl }
bridge_ending-Sound outside_read run h = record { code = omega arith; usage = λ e. ground arith }
bridge_ending-Sound running_on run h = record { code = omega arith; usage = λ e. ground arith }

module _ (t : MapTables) (api : PacketApi) (a : Answers) where
  run_mode-Sound : (m : Mode) (o : AppOptions) → Sound (run_mode t api a m o)
  unfolding run_mode
  run_mode-Sound probe o = run_probe-Sound o a.probing (new_device o.usb a.usb_init)
  run_mode-Sound bridge o =
      let r : BridgeReplies = record a.bridging { usb_init = a.usb_init } in
      let run = run_bridge t o api r in
      bridge_ending-Sound run.ending run (run_bridge-code t o api r)

  run_parsed-Sound : (p : Parsed AppOptions) → Sound (run_parsed t api a p)
  unfolding run_parsed failed_with exit_code
  run_parsed-Sound (parsed o) = run_mode-Sound o.mode o
  run_parsed-Sound (rejected e) = record { code = omega arith; usage = λ e. refl }

-- Whatever the arguments and the answers of the libraries are, where the program exits its code is 0
-- or 1, and a run that writes the usage exits with 1.
pub main_run-exits :
    (t : MapTables) (api : PacketApi) (a : Answers) (args : List Text)
    → let m = main_run t api a args in
      ((n : ℕ) → m.ending ≡ exits n → n ≤ 1) × (m.usage ≡ true → m.ending ≡ exits 1)
unfolding main_run exit_code
main_run-exits t api a args =
    let sound = run_parsed-Sound t api a (parse_args args) in
    (λ n h. omega (arith, ap exit_code h, sound.code), sound.usage)

one_is_zero : ¬ (suc 0 ≡ 0)
one_is_zero e = omega arith

-- What the run of the mode has written, at the end of the program.
probe_run-written :
    (ep : ℕ) (x : ProbeOutcome ProbeEnd) (events : List Event) (d : UsbDevice)
    → (probe_run x events d).ending ≡ exits 0
    → (e : ProbeEnd) × (x ≡ done e) × (written ep (probe_run x events d).events ≡ written ep events)
unfolding probe_run failed_with written exit_code
probe_run-written ep (done (finished n)) events d h = (
  finished n,
  refl,
  written-append ep events (map usb (delete_device d))
      ∙ ap (λ xs. written ep events ++ xs)
          (mute_written ep (delete_device d) (delete_device-mute d))
      ∙ append-nil (written ep events),
)
probe_run-written ep (done streaming) events d h = ground arith
probe_run-written ep (threw e) events d h = absurd (one_is_zero (ap exit_code h))
probe_run-written ep undefined_read events d h = ground arith

run_probe-written :
    (o : AppOptions) (r : ProbeReplies) (made : Result UsbDevice)
    → ((d : UsbDevice) → made ≡ ok d → d.options ≡ o.usb)
    → (o.usb.input_endpoint == o.usb.output_endpoint) ≡ false
    → 1 ≤ length o.write_payload
    → (run_probe o r made).ending ≡ exits 0
    → written o.usb.output_endpoint (run_probe o r made).events
      ≡ replicate (pos_part o.write_repeat) o.write_payload
unfolding run_probe failed_with exit_code
run_probe-written o r (ok d) given differ some_payload h =
    let p = probing_run o r d in
    let (e, finishes, same) =
      probe_run-written o.usb.output_endpoint p.outcome p.events p.device h in
    same ∙ (probing_run-written o r d e (given d refl) differ some_payload finishes).0
run_probe-written o r (err e) given differ some_payload h = absurd (one_is_zero (ap exit_code h))
run_probe-written o r undefined given differ some_payload h = ground arith

-- Where the arguments ask for a probe with a payload and the program exits with 0, the transfers on
-- the output endpoint of the whole run were exactly that payload, `--write-repeat` times. The two
-- endpoints differ.
pub main_run-written :
    (t : MapTables) (api : PacketApi) (a : Answers) (args : List Text) (o : AppOptions)
    → parse_args args ≡ parsed o
    → o.mode ≡ probe
    → (o.usb.input_endpoint == o.usb.output_endpoint) ≡ false
    → 1 ≤ length o.write_payload
    → (main_run t api a args).ending ≡ exits 0
    → written o.usb.output_endpoint (main_run t api a args).events
      ≡ replicate (pos_part o.write_repeat) o.write_payload
unfolding main_run run_parsed run_mode
main_run-written t api a args o given probing differ some_payload h =
    let whole : main_run t api a args ≡ run_probe o a.probing (new_device o.usb a.usb_init) =
      ap (run_parsed t api a) given ∙ ap (λ (m : Mode). run_mode t api a m o) probing in
    ap (λ (m : MainRun). written o.usb.output_endpoint m.events) whole
    ∙ run_probe-written o a.probing (new_device o.usb a.usb_init)
        (new_device-options o.usb a.usb_init) differ some_payload
        (sym (ap (λ (m : MainRun). m.ending) whole) ∙ h)
