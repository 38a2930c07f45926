-- ===== src/Bridge/Whole.antt =====
-- run_bridge of src/main.cpp from its start to its end: it builds its parts, connects, runs the main
-- loop with the feedback callbacks, and destroys its parts.
pub mod Decoding
pub mod Ports
pub mod Invariant
pub mod ExitCode
mod Tests
use s4_mk1_usb2midi.Common.{ℕ, List, ◌∷◌, [], Option, none, Bool, false, true, ◌++◌}
use s4_mk1_usb2midi.Usb.{Rc, UsbCall, UsbDevice, Result, no_device, ok, err, undefined}
use s4_mk1_usb2midi.Midi.{
  CoreMidiCall, CoreMidiBridge, delete_bridge, PacketApi, Replies, Built, throws, new_bridge, built,
}
use s4_mk1_usb2midi.Init.Sequence.{Drain84}
use s4_mk1_usb2midi.Bridge.Loop.{
  RoundEnd, Attempt, goes_on, Connected, loop_ends, Bridge, ConnectRun, leaves, connect, hung,
  connected, refused, trying, failed,
}
use s4_mk1_usb2midi.Protocol.{MapTables, S4GenericProtocol, new_protocol}
use s4_mk1_usb2midi.Cli.Arguments.{AppOptions}
use s4_mk1_usb2midi.Usb.Connection.{delete_device, new_device}
use s4_mk1_usb2midi.Bridge.Events.{BridgeEvent, run_events}

-- What the libraries answer: `libusb_init`, the first attempts to connect, the three create calls of
-- CoreMIDI, and the events. `signalled` is whether a signal clears `running` behind the events.
pub record BridgeReplies : Type 0 where
  pub usb_init : Rc
  pub attempts : List (Option Attempt)
  pub midi : Replies
  pub events : List BridgeEvent
  pub signalled : Bool

-- How the run ends: with an exit code, with an exception, with a read outside an array, or not
-- within what is looked at.
pub data BridgeEnd : Type 0 where
  returned : ℕ → BridgeEnd
  thrown_out outside_read running_on : BridgeEnd

-- `usb_calls` are those of the callbacks and of the destructor.
pub record BridgeRun : Type 0 where
  pub messages : List (List ℕ)
  pub midi_calls : List CoreMidiCall
  pub usb_calls : List UsbCall
  pub ending : BridgeEnd

-- `static DrainState s_drain`.
abbrev pub idle_drain : Drain84
idle_drain = record { t = none; active = false }

loop_ending : RoundEnd → Bool → BridgeEnd
loop_ending goes_on false = running_on
loop_ending goes_on true = returned 0
loop_ending loop_ends signalled = returned 0
loop_ending leaves signalled = thrown_out
loop_ending hung signalled = running_on

-- The destructors run when the function is left: first that of the ports, then that of the device.
destroyed : BridgeEnd → CoreMidiBridge → UsbDevice → List CoreMidiCall × List UsbCall
destroyed (returned n) midi d = (delete_bridge midi, delete_device d)
destroyed thrown_out midi d = (delete_bridge midi, delete_device d)
destroyed outside_read midi d = ([], [])
destroyed running_on midi d = ([], [])

-- The state in which the main loop starts.
abbrev pub loop_start : ConnectRun → S4GenericProtocol → Bridge
loop_start c protocol = record {
  protocol = protocol;
  device = c.device;
  drain = c.drain;
  previous_debug_packet = [];
  previous_raw_sysex_packet = [];
}

module _ (t : MapTables) (o : AppOptions) (api : PacketApi) (r : BridgeReplies) where
  with_ports : Built → List CoreMidiCall → Bridge → BridgeRun
  unfolding loop_ending destroyed
  with_ports (throws e) calls s = record {
    messages = [];
    midi_calls = calls;
    usb_calls = delete_device s.device;
    ending = thrown_out;
  }
  with_ports (built midi) calls s =
      let run = run_events t o api midi r.events s in
      let end = loop_ending run.round_end r.signalled in
      let (midi_end, usb_end) = destroyed end midi run.bridge.device in
      record {
        messages = run.messages;
        midi_calls = calls ++ midi_end;
        usb_calls = run.writes ++ usb_end;
        ending = end;
      }

  with_connection : Connected → ConnectRun → S4GenericProtocol → BridgeRun
  unfolding with_ports
  with_connection connected c protocol =
      let (b, calls) = new_bridge r.midi in
      with_ports b calls (record {
        protocol = protocol;
        device = c.device;
        drain = c.drain;
        previous_debug_packet = [];
        previous_raw_sysex_packet = [];
      })
  with_connection refused c protocol = record {
    messages = [];
    midi_calls = [];
    usb_calls = delete_device c.device;
    ending = returned 1;
  }
  with_connection trying c protocol = record {
    messages = [];
    midi_calls = [];
    usb_calls = [];
    ending = running_on;
  }
  with_connection failed c protocol = record {
    messages = [];
    midi_calls = [];
    usb_calls = [];
    ending = outside_read;
  }

  with_device : Result UsbDevice → S4GenericProtocol → BridgeRun
  unfolding with_connection
  with_device (ok d) protocol =
      let c = connect r.attempts d idle_drain in with_connection c.outcome c protocol
  with_device (err e) protocol = record {
    messages = [];
    midi_calls = [];
    usb_calls = [];
    ending = thrown_out;
  }
  with_device undefined protocol = record {
    messages = [];
    midi_calls = [];
    usb_calls = [];
    ending = outside_read;
  }

  pub run_bridge : BridgeRun
  unfolding with_device
  run_bridge =
      with_device (new_device o.usb r.usb_init)
        (new_protocol o.midi_base_channel o.input_deadzone o.input_decode_mode)
