-- ===== src/Bridge/Loop/Rounds.antt =====
-- What the main loop of run_bridge of src/main.cpp publishes.
use s4_mk1_usb2midi.Bridge.Loop.Reads.{Reads, reads, no_reads, waits, rejoins}
use s4_mk1_usb2midi.Common.{
  ◌≡◌, ◌∙◌, ap, ap₂, map, refl, sym, [], ◌∷◌, List, true, false, Option, ◌++◌, Bool,
}
use s4_mk1_usb2midi.Usb.{UsbDevice}
use s4_mk1_usb2midi.Protocol.{MapTables}
use s4_mk1_usb2midi.Usb.Transfers.{TransferReply}
use s4_mk1_usb2midi.Cli.Arguments.{AppOptions}
use s4_mk1_usb2midi.Midi.{PacketApi, CoreMidiBridge}
use s4_mk1_usb2midi.Bridge.Loop.{
  Attempt, ℕ, bridge_round, read_input, Bridge, debugged, decode_input, goes_on, RoundRun,
  S4GenericProtocol, run_rounds, next_round, Drain84, connect,
}
use s4_mk1_usb2midi.Midi.Send.{TakesWhatFits}
use s4_mk1_usb2midi.Protocol.Baseline.{decode_all}
use s4_mk1_usb2midi.Bridge.Loop.Connecting.{connect-IsUsable}
use s4_mk1_usb2midi.Bridge.Loop.Steps.{
  after_packet, debugged-keeps, bridge_round-on_packet, on_packet-after_packet, on_packet-timeout,
  bridge_round-rejoins,
}
use s4_mk1_usb2midi.Bridge.Loop.Published.{
  published_all, Tracks, copies-Tracks, stored-Tracks, published_all-decode_all,
}

module _ (t : MapTables) (o : AppOptions) (api : PacketApi) (midi : CoreMidiBridge)
    (fits : TakesWhatFits api)
    (accepts : (bytes : List ℕ) → api.received midi.source bytes ≡ true) where
  Publishes : RoundRun → S4GenericProtocol → List ℕ → List (List ℕ) → Type 0
  Publishes run p previous packets =
      (run.messages ≡ published_all t o.raw_sysex p previous packets)
      × (run.bridge.protocol ≡ (decode_all t p packets).0)
      × (run.round_end ≡ goes_on)

  -- One round, when the later ones are known to publish.
  round-Publishes :
      (r : RoundRun) (rounds : List (TransferReply × List (Option Attempt))) (s' : Bridge)
      (p : S4GenericProtocol) (previous packet : List ℕ) (packets : List (List ℕ)) (run : RoundRun)
      → r ≡ after_packet t o.raw_sysex packet s'
      → s'.protocol ≡ p
      → Tracks o.raw_sysex s'.previous_raw_sysex_packet previous
      → Publishes
          (run_rounds t o api midi rounds (after_packet t o.raw_sysex packet s').bridge)
          (decode_input t p packet).0
          packet
          packets
      → run ≡ next_round t o api midi r.round_end r (run_rounds t o api midi rounds r.bridge)
      → Publishes run p previous (packet ∷ packets)
  unfolding Publishes next_round decode_all published_all
  round-Publishes r rounds s' p previous packet packets run e q tracks (m, b, g) u =
      let x = after_packet t o.raw_sysex packet s' in
      let rest = run_rounds t o api midi rounds x.bridge in
      let v : run ≡ record rest { messages = x.messages ++ rest.messages } =
        u
        ∙ ap
            (λ (y : RoundRun).
              next_round t o api midi y.round_end y (run_rounds t o api midi rounds y.bridge))
            e in
      let copy = copies-Tracks o.raw_sysex packet s'.previous_raw_sysex_packet previous tracks in
      (
        ap (λ (y : RoundRun). y.messages) v
            ∙ ap₂ (◌++◌)
                (ap₂ (◌++◌) copy (
                  ap (λ (y : S4GenericProtocol). map (λ m. m.bytes) (decode_input t y packet).1) q))
                m,
        ap (λ (y : RoundRun). y.bridge.protocol) v ∙ b,
        ap (λ (y : RoundRun). y.round_end) v ∙ g,
      )

  -- A round without messages.
  silent-Publishes :
      (r : RoundRun) (rounds : List (TransferReply × List (Option Attempt))) (s' : Bridge)
      (p : S4GenericProtocol) (previous : List ℕ) (packets : List (List ℕ)) (run : RoundRun)
      → r ≡ record { bridge = s'; messages = []; round_end = goes_on }
      → Publishes (run_rounds t o api midi rounds s') p previous packets
      → run ≡ next_round t o api midi r.round_end r (run_rounds t o api midi rounds r.bridge)
      → Publishes run p previous packets
  unfolding Publishes next_round
  silent-Publishes r rounds s' p previous packets run e (m, b, g) u =
      let v : run ≡ run_rounds t o api midi rounds s' =
        u
        ∙ ap
            (λ (y : RoundRun).
              next_round t o api midi y.round_end y (run_rounds t o api midi rounds y.bridge))
            e in
      (
        ap (λ (y : RoundRun). y.messages) v ∙ m,
        ap (λ (y : RoundRun). y.bridge.protocol) v ∙ b,
        ap (λ (y : RoundRun). y.round_end) v ∙ g,
      )

  run_rounds-Publishes :
      {d : UsbDevice} {drain : Drain84} {rounds : List (TransferReply × List (Option Attempt))}
      {packets : List (List ℕ)} (s : Bridge) (p : S4GenericProtocol) (previous : List ℕ)
      → Reads d drain rounds packets
      → d.disconnected ≡ false
      → s.device ≡ d
      → s.drain ≡ drain
      → s.protocol ≡ p
      → Tracks o.raw_sysex s.previous_raw_sysex_packet previous
      → Publishes (run_rounds t o api midi rounds s) p previous packets
  unfolding Publishes run_rounds next_round decode_all published_all Tracks
  run_rounds-Publishes s p previous no_reads c h j k l = (refl, k, refl)
  run_rounds-Publishes {d = d} s p previous
        (reads {reply = reply} {attempts = attempts} {b = b} {bs = bs} {rounds = rs} {packets = ps}
          e f go)
        c h j k l =
      let keeps = debugged-keeps t o api midi (b ∷ bs) s in
      let s' = debugged t o api midi (b ∷ bs) s in
      let q : s'.protocol ≡ p = keeps.1 ∙ k in
      let round =
        bridge_round-on_packet t o api midi reply attempts s (b ∷ bs)
          (ap (λ (x : UsbDevice). (read_input reply x).device) h ∙ e ∙ sym h)
          (ap (λ (x : UsbDevice). (read_input reply x).result) h ∙ f)
          (ap (λ (x : UsbDevice). x.disconnected) h ∙ c) in
      round-Publishes (bridge_round t o api midi reply attempts s) rs s' p previous (b ∷ bs) ps _
        (round ∙ on_packet-after_packet t o api midi fits accepts b bs s) q (λ on. keeps.3 ∙ l on)
        (run_rounds-Publishes (after_packet t o.raw_sysex (b ∷ bs) s').bridge _ (b ∷ bs) go c
          (keeps.0 ∙ h) (keeps.2 ∙ j)
          (ap (λ (x : S4GenericProtocol). (decode_input t x (b ∷ bs)).0) q)
          (stored-Tracks o.raw_sysex (b ∷ bs) s'.previous_raw_sysex_packet))
        refl
  run_rounds-Publishes {d = d} s p previous
        (waits {reply = reply} {attempts = attempts} {rounds = rs} {packets = ps} e f go) c h j k
        l =
      let round =
        bridge_round-on_packet t o api midi reply attempts s []
          (ap (λ (x : UsbDevice). (read_input reply x).device) h ∙ e ∙ sym h)
          (ap (λ (x : UsbDevice). (read_input reply x).result) h ∙ f)
          (ap (λ (x : UsbDevice). x.disconnected) h ∙ c) in
      silent-Publishes (bridge_round t o api midi reply attempts s) rs s p previous ps _
        (round ∙ on_packet-timeout t o api midi s) (run_rounds-Publishes s p previous go c h j k l)
        refl
  run_rounds-Publishes {d = d} {drain = drain} s p previous
        (rejoins {reply = reply} {attempts = attempts} {rounds = rs} {packets = ps} gone empty
          joined go)
        c h j k l =
      let lost = (read_input reply d).device in
      let run = connect attempts lost drain in
      let s' : Bridge = record s {
        device = run.device;
        drain = run.drain;
        previous_debug_packet = [];
      } in
      let usable = connect-IsUsable attempts lost drain lost.options refl joined in
      silent-Publishes (bridge_round t o api midi reply attempts s) rs s' p previous ps _
        (bridge_round-rejoins t o api midi reply attempts s d drain h j gone empty joined)
        (run_rounds-Publishes s' p previous go usable.connected refl refl k l) refl

-- While each read of the main loop returns a packet, runs into its timeout, or loses the device and the
-- round connects again, the loop publishes for each packet in turn its SysEx copy, where that is
-- asked for and the packet is new, and then the messages of the decoder, byte for byte; it keeps the
-- decoder's state and goes on, where CoreMIDI takes packets that fit and the source accepts them.
pub run_rounds-published_all :
    (t : MapTables) (o : AppOptions) (api : PacketApi) (midi : CoreMidiBridge) (s : Bridge)
    (rounds : List (TransferReply × List (Option Attempt))) (packets : List (List ℕ))
    → TakesWhatFits api
    → ((bytes : List ℕ) → api.received midi.source bytes ≡ true)
    → Reads s.device s.drain rounds packets
    → s.device.disconnected ≡ false
    → ((run_rounds t o api midi rounds s).messages
        ≡ published_all t o.raw_sysex s.protocol s.previous_raw_sysex_packet packets)
      × ((run_rounds t o api midi rounds s).bridge.protocol ≡ (decode_all t s.protocol packets).0)
      × ((run_rounds t o api midi rounds s).round_end ≡ goes_on)
unfolding Publishes Tracks
run_rounds-published_all t o api midi s rounds packets fits accepts go c =
    run_rounds-Publishes t o api midi fits accepts s s.protocol s.previous_raw_sysex_packet go c
      refl refl refl (λ on. refl)

pub run_rounds-decode_all :
    (t : MapTables) (o : AppOptions) (api : PacketApi) (midi : CoreMidiBridge) (s : Bridge)
    (rounds : List (TransferReply × List (Option Attempt))) (packets : List (List ℕ))
    → o.raw_sysex ≡ false
    → TakesWhatFits api
    → ((bytes : List ℕ) → api.received midi.source bytes ≡ true)
    → Reads s.device s.drain rounds packets
    → s.device.disconnected ≡ false
    → ((run_rounds t o api midi rounds s).messages
        ≡ map (λ m. m.bytes) (decode_all t s.protocol packets).1)
      × ((run_rounds t o api midi rounds s).bridge.protocol ≡ (decode_all t s.protocol packets).0)
      × ((run_rounds t o api midi rounds s).round_end ≡ goes_on)
run_rounds-decode_all t o api midi s rounds packets quiet fits accepts go c =
    let (messages, protocol, round_end) =
      run_rounds-published_all t o api midi s rounds packets fits accepts go c in
    (
      messages
          ∙ ap (λ (raw : Bool). published_all t raw s.protocol s.previous_raw_sysex_packet packets)
              quiet
          ∙ published_all-decode_all t s.protocol s.previous_raw_sysex_packet packets,
      protocol,
      round_end,
    )
