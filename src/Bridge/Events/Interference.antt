-- ===== src/Bridge/Events/Interference.antt =====
-- The feedback callback of run_bridge of src/main.cpp and the published messages.
use s4_mk1_usb2midi.Common.{◌∷◌, [], List, Bool, Option, ◌≡◌, ap, ◌++◌, ◌∙◌, ℕ, false, true, refl}
use s4_mk1_usb2midi.Bridge.Events.{
  EventsRun, BridgeEvent, RoundRun, AppOptions, TransferReply, PacketApi, CoreMidiBridge, Attempt,
  after_round, round, RoundEnd, feedback, UsbCall, run_events, Bridge, bridge_round, on_feedback,
}
use s4_mk1_usb2midi.Protocol.{MapTables}
use s4_mk1_usb2midi.Bridge.Loop.Warned.{with_warned, run_warned, run_rounds-warned}
use s4_mk1_usb2midi.Bridge.Loop.{next_round, run_rounds, goes_on, loop_ends, leaves, hung}
use s4_mk1_usb2midi.Bridge.Feedback.Effects.{on_feedback-warned}
use s4_mk1_usb2midi.Midi.Send.{TakesWhatFits}
use s4_mk1_usb2midi.Bridge.Loop.Reads.{Reads}
use s4_mk1_usb2midi.Bridge.Loop.Rounds.{run_rounds-published_all}
use s4_mk1_usb2midi.Bridge.Loop.Published.{published_all}

unfoldable pub rounds_of : List BridgeEvent → List (TransferReply × List (Option Attempt))
rounds_of [] = []
rounds_of (round reply attempts ∷ events) = (reply, attempts) ∷ rounds_of events
rounds_of (feedback m reply ∷ events) = rounds_of events

-- What a run with callbacks shares with a run of its rounds alone.
record Agrees (e : EventsRun) (r : RoundRun) : Type 0 where
  flag : Bool
  bridge : e.bridge ≡ with_warned flag r.bridge
  messages : e.messages ≡ r.messages
  round_end : e.round_end ≡ r.round_end

ended :
    {writes : List UsbCall} {e : RoundEnd} (r : RoundRun)
    → e ≡ r.round_end
    → Agrees (record { bridge = r.bridge; messages = r.messages; writes = writes; round_end = e }) r
ended r h = record {
  flag = r.bridge.protocol.warned_about_led_protocol;
  bridge = refl;
  messages = refl;
  round_end = h;
}

module _ (t : MapTables) (o : AppOptions) (api : PacketApi) (midi : CoreMidiBridge) where
  after_round-Agrees :
      (e : RoundEnd) (r : RoundRun) (rest : EventsRun) (rest' : RoundRun)
      → e ≡ r.round_end
      → Agrees rest rest'
      → Agrees (after_round e r rest) (next_round t o api midi e r rest')
  unfolding after_round next_round
  after_round-Agrees goes_on r rest rest' h k = record {
    flag = k.flag;
    bridge = k.bridge;
    messages = ap (◌++◌ r.messages) k.messages;
    round_end = k.round_end;
  }
  after_round-Agrees loop_ends r rest rest' h k = ended r h
  after_round-Agrees leaves r rest rest' h k = ended r h
  after_round-Agrees hung r rest rest' h k = ended r h

  run_events-Agrees :
      (events : List BridgeEvent) (s : Bridge)
      → Agrees (run_events t o api midi events s) (run_rounds t o api midi (rounds_of events) s)
  unfolding run_events run_rounds rounds_of
  run_events-Agrees [] s = record {
    flag = s.protocol.warned_about_led_protocol;
    bridge = refl;
    messages = refl;
    round_end = refl;
  }
  run_events-Agrees (round reply attempts ∷ events) s =
      let r = bridge_round t o api midi reply attempts s in
      after_round-Agrees r.round_end r (run_events t o api midi events r.bridge)
        (run_rounds t o api midi (rounds_of events) r.bridge) refl
        (run_events-Agrees events r.bridge)
  run_events-Agrees (feedback m reply ∷ events) s =
      let (w, e) = on_feedback-warned m reply s in
      let rest = run_rounds t o api midi (rounds_of events) in
      let same : rest (on_feedback m reply s).0 ≡ run_warned w (rest s) =
        ap rest e ∙ run_rounds-warned t o api midi w (rounds_of events) s in
      let k = run_events-Agrees events (on_feedback m reply s).0 in
      record {
        flag = k.flag;
        bridge = k.bridge ∙ ap (λ (x : RoundRun). with_warned k.flag x.bridge) same;
        messages = k.messages ∙ ap (λ (x : RoundRun). x.messages) same;
        round_end = k.round_end ∙ ap (λ (x : RoundRun). x.round_end) same;
      }

-- The callbacks do not disturb the loop: with feedback messages at any places between the rounds the
-- loop publishes what it publishes without them, and ends in the same way, with the same decoder
-- but for the flag that a warning was written.
pub run_events-run_rounds :
    (t : MapTables) (o : AppOptions) (api : PacketApi) (midi : CoreMidiBridge)
    (events : List BridgeEvent) (s : Bridge)
    → let e = run_events t o api midi events s in
      let r = run_rounds t o api midi (rounds_of events) s in
      (e.messages ≡ r.messages)
      × (e.round_end ≡ r.round_end)
      × ((w : Bool) × (e.bridge ≡ with_warned w r.bridge))
run_events-run_rounds t o api midi events s =
    let k = run_events-Agrees t o api midi events s in (k.messages, k.round_end, (k.flag, k.bridge))

-- While each read of the main loop returns a packet, runs into its timeout, or loses the device and the
-- round connects again, with feedback messages at any places between the rounds, the loop publishes
-- for each packet in turn its SysEx copy, where that is asked for and the packet is new, and then
-- the messages of the decoder, byte for byte, and goes on, where CoreMIDI takes packets that fit and
-- the source accepts them.
pub run_events-published_all :
    (t : MapTables) (o : AppOptions) (api : PacketApi) (midi : CoreMidiBridge) (s : Bridge)
    (events : List BridgeEvent) (packets : List (List ℕ))
    → TakesWhatFits api
    → ((bytes : List ℕ) → api.received midi.source bytes ≡ true)
    → Reads s.device s.drain (rounds_of events) packets
    → s.device.disconnected ≡ false
    → ((run_events t o api midi events s).messages
        ≡ published_all t o.raw_sysex s.protocol s.previous_raw_sysex_packet packets)
      × ((run_events t o api midi events s).round_end ≡ goes_on)
run_events-published_all t o api midi s events packets fits accepts go live =
    let alone =
      run_rounds-published_all t o api midi s (rounds_of events) packets fits accepts go live in
    let (messages, round_end, _) = run_events-run_rounds t o api midi events s in
    (messages ∙ alone.0, round_end ∙ alone.2)
