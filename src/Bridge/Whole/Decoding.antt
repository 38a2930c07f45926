-- ===== src/Bridge/Whole/Decoding.antt =====
-- What a whole run of run_bridge of src/main.cpp publishes.
use s4_mk1_usb2midi.Bridge.Whole.{
  BridgeRun, RoundEnd, loop_start, run_bridge, with_device, UsbDevice, with_connection, new_device,
  with_ports, loop_ending, ok, MapTables, AppOptions, PacketApi, BridgeReplies, CoreMidiBridge,
  connect, idle_drain, connected, new_protocol, new_bridge, goes_on, built, returned, running_on,
  Result, Connected, Built, Bridge,
}
use s4_mk1_usb2midi.Common.{refl, ◌≡◌, List, ℕ, Bool, if◌then◌else◌, [], false, ap, true, ◌∙◌}
use s4_mk1_usb2midi.Midi.Send.{TakesWhatFits}
use s4_mk1_usb2midi.Bridge.Loop.Reads.{Reads}
use s4_mk1_usb2midi.Bridge.Events.Interference.{rounds_of, run_events-published_all}
use s4_mk1_usb2midi.Bridge.Loop.Connecting.{connect-IsUsable}
use s4_mk1_usb2midi.Usb.Connection.Options.{new_device-options}
use s4_mk1_usb2midi.Bridge.Loop.Published.{published_all}

-- The run behind a connection and the two ports.
run_bridge-with_ports :
    (t : MapTables) (o : AppOptions) (api : PacketApi) (r : BridgeReplies) (d : UsbDevice)
    (midi : CoreMidiBridge)
    → let c = connect r.attempts d idle_drain in
      new_device o.usb r.usb_init ≡ ok d
      → c.outcome ≡ connected
      → (new_bridge r.midi).0 ≡ built midi
      → run_bridge t o api r
        ≡ with_ports t o api r
            (built midi)
            (new_bridge r.midi).1
            (loop_start c (new_protocol o.midi_base_channel o.input_deadzone o.input_decode_mode))
unfolding run_bridge with_device with_connection
run_bridge-with_ports t o api r d midi made joined ports =
    let c = connect r.attempts d idle_drain in
    let p = new_protocol o.midi_base_channel o.input_deadzone o.input_decode_mode in
    ap (λ (x : Result UsbDevice). with_device t o api r x p) made
    ∙ ap (λ (x : Connected). with_connection t o api r x c p) joined
    ∙ ap (λ (b : Built). with_ports t o api r b (new_bridge r.midi).1 (loop_start c p)) ports

loop_ending-goes_on :
    (signalled : Bool)
    → loop_ending goes_on signalled ≡ (if signalled then returned 0 else running_on)
unfolding loop_ending
loop_ending-goes_on true = refl
loop_ending-goes_on false = refl

-- When `connect` connects and the ports can be created, run_bridge publishes, for each packet in turn,
-- its SysEx copy, where `--raw-sysex` is given and the packet differs from the one before it, and
-- then the messages of the decoder with the settings of the command line, byte for byte, through
-- timeouts, feedback and losses of the device after which it connects again; it goes on until a
-- signal, and then returns 0. No read or reconnection ends the loop, and CoreMIDI takes packets that
-- fit and its source accepts them.
pub run_bridge-published_all :
    (t : MapTables) (o : AppOptions) (api : PacketApi) (r : BridgeReplies) (d : UsbDevice)
    (midi : CoreMidiBridge) (packets : List (List ℕ))
    → let c = connect r.attempts d idle_drain in
      let p = new_protocol o.midi_base_channel o.input_deadzone o.input_decode_mode in
      new_device o.usb r.usb_init ≡ ok d
      → c.outcome ≡ connected
      → (new_bridge r.midi).0 ≡ built midi
      → TakesWhatFits api
      → ((bytes : List ℕ) → api.received midi.source bytes ≡ true)
      → Reads c.device c.drain (rounds_of r.events) packets
      → ((run_bridge t o api r).messages ≡ published_all t o.raw_sysex p [] packets)
        × ((run_bridge t o api r).ending ≡ (if r.signalled then returned 0 else running_on))
unfolding with_ports
run_bridge-published_all t o api r d midi packets made joined ports fits accepts go =
    let c = connect r.attempts d idle_drain in
    let s : Bridge =
      loop_start c (new_protocol o.midi_base_channel o.input_deadzone o.input_decode_mode) in
    let usable =
      connect-IsUsable r.attempts d idle_drain o.usb (new_device-options o.usb r.usb_init d made)
        joined in
    let run =
      run_events-published_all t o api midi s r.events packets fits accepts go usable.connected in
    let whole = run_bridge-with_ports t o api r d midi made joined ports in
    (
      ap (λ (x : BridgeRun). x.messages) whole ∙ run.0,
      ap (λ (x : BridgeRun). x.ending) whole
          ∙ ap (λ (e : RoundEnd). loop_ending e r.signalled) run.1
          ∙ loop_ending-goes_on r.signalled,
    )
