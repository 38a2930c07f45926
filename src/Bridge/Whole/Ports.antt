-- ===== src/Bridge/Whole/Ports.antt =====
-- The virtual ports of a whole run of run_bridge of src/main.cpp.
use s4_mk1_usb2midi.Common.{
  refl, Bool, true, false, ◌≡◌, ℕ, arith, ◌≢◌, some, [], ◌++◌, ap, List, ◌∙◌, sym,
}
use s4_mk1_usb2midi.Bridge.Whole.{
  BridgeEnd, BridgeRun, destroyed, MapTables, returned, CoreMidiBridge, AppOptions, UsbDevice,
  PacketApi, BridgeReplies, delete_bridge, thrown_out, outside_read, running_on, Replies, Bridge,
  with_ports, new_bridge, built, with_connection, with_device, run_bridge, CoreMidiCall, new_device,
  new_protocol, Connected, Result, ConnectRun, S4GenericProtocol, ok, Built, connect, idle_drain,
  err, loop_start,
}
use s4_mk1_usb2midi.Midi.Resources.{live, live-new_bridge-delete_bridge}
use s4_mk1_usb2midi.Bridge.Loop.{connected, refused, trying, failed}
use s4_mk1_usb2midi.Usb.{undefined}

-- The run has left the function.
unfoldable pub has_ended : BridgeEnd → Bool
has_ended (returned n) = true
has_ended thrown_out = true
has_ended outside_read = false
has_ended running_on = false

destroyed-ended :
    (e : BridgeEnd) (midi : CoreMidiBridge) (d : UsbDevice)
    → has_ended e ≡ true
    → (destroyed e midi d).0 ≡ delete_bridge midi
unfolding destroyed has_ended
destroyed-ended (returned n) midi d h = refl
destroyed-ended thrown_out midi d h = refl
destroyed-ended outside_read midi d h = ground arith
destroyed-ended running_on midi d h = ground arith

abbrev Disposes : BridgeRun → Type 0
Disposes run = has_ended run.ending ≡ true → live [] run.midi_calls ≡ []

same_run : (run run' : BridgeRun) → run ≡ run' → Disposes run' → Disposes run
same_run run run' e k h =
    ap (λ (x : BridgeRun). live [] x.midi_calls) e
    ∙ k (sym (ap (λ (x : BridgeRun). has_ended x.ending) e) ∙ h)

-- All three objects are created.
abbrev pub all_created : ℕ → ℕ → ℕ → Replies
all_created c s d = record { client = some c; source = some s; destination = some d }

module _ (t : MapTables) (o : AppOptions) (api : PacketApi) (r : BridgeReplies) where
  with_built-Disposes :
      (midi : CoreMidiBridge) (calls : List CoreMidiCall) (x : Bridge)
      → live [] (calls ++ delete_bridge midi) ≡ []
      → Disposes (with_ports t o api r (built midi) calls x)
  unfolding with_ports
  with_built-Disposes midi calls x balance h =
      ap (λ y. live [] (calls ++ y)) (destroyed-ended _ midi _ h) ∙ balance

  module _ (c s d : ℕ) (some_client : c ≢ 0) (some_source : s ≢ 0) (some_destination : d ≢ 0)
      (created : r.midi ≡ all_created c s d) where
    with_connection-Disposes :
        (outcome : Connected) (run : ConnectRun) (p : S4GenericProtocol)
        → Disposes (with_connection t o api r outcome run p)
    unfolding with_connection live
    with_connection-Disposes connected run p =
        let ports : CoreMidiBridge = record { client = c; source = s; destination = d } in
        let balance =
          live-new_bridge-delete_bridge c s d some_client some_source some_destination in
        let x : Bridge = loop_start run p in
        let calls = (new_bridge (all_created c s d)).1 in
        same_run (with_ports t o api r (new_bridge r.midi).0 (new_bridge r.midi).1 x)
          (with_ports t o api r (built ports) calls x)
          (ap (λ (m : Replies). with_ports t o api r (new_bridge m).0 (new_bridge m).1 x) created
            ∙ ap (λ (b : Built). with_ports t o api r b calls x) balance.0)
          (with_built-Disposes ports calls x balance.1)
    with_connection-Disposes refused run p = λ h. refl
    with_connection-Disposes trying run p = λ h. refl
    with_connection-Disposes failed run p = λ h. refl

    with_device-Disposes :
        (made : Result UsbDevice) (p : S4GenericProtocol) → Disposes (with_device t o api r made p)
    unfolding with_device live
    with_device-Disposes (ok x) p =
        let run = connect r.attempts x idle_drain in with_connection-Disposes run.outcome run p
    with_device-Disposes (err e) p = λ h. refl
    with_device-Disposes undefined p = λ h. refl

-- However run_bridge is left, by a return or by an exception, and whatever libusb answers, no CoreMIDI
-- object stays behind, where CoreMIDI creates all three and gives no reference 0.
pub run_bridge-disposes :
    (t : MapTables) (o : AppOptions) (api : PacketApi) (r : BridgeReplies) (c s d : ℕ)
    → c ≢ 0
    → s ≢ 0
    → d ≢ 0
    → r.midi ≡ all_created c s d
    → has_ended (run_bridge t o api r).ending ≡ true
    → live [] (run_bridge t o api r).midi_calls ≡ []
unfolding run_bridge
run_bridge-disposes t o api r c s d hc hs hd created =
    with_device-Disposes t o api r c s d hc hs hd created (new_device o.usb r.usb_init)
      (new_protocol o.midi_base_channel o.input_deadzone o.input_decode_mode)
