-- ===== src/Bridge/Whole/ExitCode.antt =====
-- The exit code of run_bridge of src/main.cpp.
use s4_mk1_usb2midi.Bridge.Whole.{
  idle_drain, err, new_device, new_protocol, BridgeEnd, loop_ending, run_bridge, returned, RoundEnd,
  AppOptions, PacketApi, BridgeReplies, with_ports, with_device, Built, with_connection, Result,
  CoreMidiCall, UsbDevice, S4GenericProtocol, throws, ok, built, run_events, new_bridge,
}
use s4_mk1_usb2midi.Common.{◌≤◌, Bool, arith, ℕ, ◌≡◌, List, true, false, ap}
use s4_mk1_usb2midi.Protocol.{MapTables}
use s4_mk1_usb2midi.Bridge.Loop.{
  goes_on, loop_ends, leaves, Bridge, hung, Connected, ConnectRun, connect, connected, refused,
  trying, failed,
}
use s4_mk1_usb2midi.Usb.{undefined}

code_of : BridgeEnd → ℕ
code_of (returned n) = n
code_of e = 0

abbrev AtMostOne : BridgeEnd → Type 0
AtMostOne e = code_of e ≤ 1

loop_ending-AtMostOne : (e : RoundEnd) (signalled : Bool) → AtMostOne (loop_ending e signalled)
unfolding code_of loop_ending
loop_ending-AtMostOne goes_on true = omega arith
loop_ending-AtMostOne goes_on false = omega arith
loop_ending-AtMostOne loop_ends signalled = omega arith
loop_ending-AtMostOne leaves signalled = omega arith
loop_ending-AtMostOne hung signalled = omega arith

module _ (t : MapTables) (o : AppOptions) (api : PacketApi) (r : BridgeReplies) where
  with_ports-AtMostOne :
      (b : Built) (calls : List CoreMidiCall) (s : Bridge)
      → AtMostOne (with_ports t o api r b calls s).ending
  unfolding with_ports code_of
  with_ports-AtMostOne (throws e) calls s = omega arith
  with_ports-AtMostOne (built midi) calls s =
      loop_ending-AtMostOne (run_events t o api midi r.events s).round_end r.signalled

  with_device-AtMostOne :
      (made : Result UsbDevice) (p : S4GenericProtocol)
      → AtMostOne (with_device t o api r made p).ending
  unfolding with_device with_connection code_of
  with_device-AtMostOne (ok d) p = let c = connect r.attempts d idle_drain in at c.outcome c
    where
      at : (x : Connected) (c : ConnectRun) → AtMostOne (with_connection t o api r x c p).ending
      at connected c = with_ports-AtMostOne (new_bridge r.midi).0 (new_bridge r.midi).1 _
      at refused c = omega arith
      at trying c = omega arith
      at failed c = omega arith
  with_device-AtMostOne (err e) p = omega arith
  with_device-AtMostOne undefined p = omega arith

pub run_bridge-code :
    (t : MapTables) (o : AppOptions) (api : PacketApi) (r : BridgeReplies) (n : ℕ)
    → (run_bridge t o api r).ending ≡ returned n
    → n ≤ 1
unfolding run_bridge code_of
run_bridge-code t o api r n h = omega (
  arith,
  ap code_of h,
  with_device-AtMostOne t o api r (new_device o.usb r.usb_init)
      (new_protocol o.midi_base_channel o.input_deadzone o.input_decode_mode),
)
