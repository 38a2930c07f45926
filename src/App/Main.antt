-- ===== src/App/Main.antt =====
-- main of src/main.cpp: the arguments, the mode, the exit code.
pub mod Exits
mod Tests
use s4_mk1_usb2midi.Common.{
  ℕ, List, [], ◌∷◌, Option, Bool, true, Text, some, false, ◌++◌, none, map,
}
use s4_mk1_usb2midi.Cli.Arguments.{Mode, probe, bridge, AppOptions, parse_args}
use s4_mk1_usb2midi.Usb.{Rc, UsbDevice, Result, no_device, ok, err, undefined}
use s4_mk1_usb2midi.App.Probe.{
  Event, ProbeOutcome, ProbeReplies, ProbeEnd, done, finished, probing_run, usb, threw, streaming,
  undefined_read,
}
use s4_mk1_usb2midi.Bridge.Whole.{
  BridgeEnd, BridgeRun, BridgeReplies, returned, run_bridge, thrown_out, outside_read, running_on,
}
use s4_mk1_usb2midi.Protocol.{MapTables}
use s4_mk1_usb2midi.Midi.{PacketApi}
use s4_mk1_usb2midi.Cli.{Parsed, parsed, rejected}
use s4_mk1_usb2midi.Usb.Connection.{new_device, delete_device}

-- What the libraries answer to a run, in either mode.
pub record Answers : Type 0 where
  pub usb_init : Rc
  pub probing : ProbeReplies
  pub bridging : BridgeReplies

pub data MainEnd : Type 0 where
  exits : ℕ → MainEnd
  goes_on outside : MainEnd

-- `events` are those of the probe mode, with the calls of the device's destructor, and `bridge_run`
-- is the run of the bridge mode. An exception is caught: its message and the usage are written.
pub record MainRun : Type 0 where
  pub events : List Event
  pub bridge_run : Option BridgeRun
  pub usage : Bool
  pub ending : MainEnd

failed_with : List Event → Option BridgeRun → MainRun
failed_with events run = record {
  events = events;
  bridge_run = run;
  usage = true;
  ending = exits 1;
}

-- The end of run_probe, where the device is destroyed.
probe_run : ProbeOutcome ProbeEnd → List Event → UsbDevice → MainRun
unfolding failed_with
probe_run (done (finished n)) events d = record {
  events = events ++ map usb (delete_device d);
  bridge_run = none;
  usage = false;
  ending = exits n;
}
probe_run (done streaming) events d = record {
  events = events;
  bridge_run = none;
  usage = false;
  ending = goes_on;
}
probe_run (threw e) events d = failed_with (events ++ map usb (delete_device d)) none
probe_run undefined_read events d = record {
  events = events;
  bridge_run = none;
  usage = false;
  ending = outside;
}

run_probe : AppOptions → ProbeReplies → Result UsbDevice → MainRun
unfolding probe_run failed_with
run_probe o r (ok d) = let p = probing_run o r d in probe_run p.outcome p.events p.device
run_probe o r (err e) = failed_with [] none
run_probe o r undefined = record { events = []; bridge_run = none; usage = false; ending = outside }

bridge_ending : BridgeEnd → BridgeRun → MainRun
unfolding failed_with
bridge_ending (returned n) run = record {
  events = [];
  bridge_run = some run;
  usage = false;
  ending = exits n;
}
bridge_ending thrown_out run = failed_with [] (some run)
bridge_ending outside_read run = record {
  events = [];
  bridge_run = some run;
  usage = false;
  ending = outside;
}
bridge_ending running_on run = record {
  events = [];
  bridge_run = some run;
  usage = false;
  ending = goes_on;
}

run_mode : MapTables → PacketApi → Answers → Mode → AppOptions → MainRun
unfolding run_probe bridge_ending
run_mode t api a probe o = run_probe o a.probing (new_device o.usb a.usb_init)
run_mode t api a bridge o =
    let run = run_bridge t o api (record a.bridging { usb_init = a.usb_init }) in
    bridge_ending run.ending run

run_parsed : MapTables → PacketApi → Answers → Parsed AppOptions → MainRun
unfolding run_mode failed_with
run_parsed t api a (parsed o) = run_mode t api a o.mode o
run_parsed t api a (rejected e) = failed_with [] none

pub main_run : MapTables → PacketApi → Answers → List Text → MainRun
unfolding run_parsed
main_run t api a args = run_parsed t api a (parse_args args)
