-- ===== src/Bridge/Loop/Steps.antt =====
-- Single rounds of the main loop of run_bridge of src/main.cpp.
use s4_mk1_usb2midi.Common.{
  ◌≡◌, ◌∙◌, ap, ap₂, map, refl, [], ◌∷◌, List, Bool, true, false, All, nil, cons, Option,
  if◌then◌else◌, ◌&&◌, ◌++◌, Bool-cases, inl, inr,
}
use s4_mk1_usb2midi.Usb.{UsbDevice}
use s4_mk1_usb2midi.Protocol.{MapTables}
use s4_mk1_usb2midi.Usb.Transfers.{TransferReply}
use s4_mk1_usb2midi.Cli.Arguments.{AppOptions}
use s4_mk1_usb2midi.Midi.{PacketApi, CoreMidiBridge}
use s4_mk1_usb2midi.Bridge.Loop.{
  Attempt, ℕ, send_all, bridge_round, read_input, add_sent, on_read, on_packet, ok, MidiMessage,
  Bridge, raw_copy, send, Result, decoded, published, debugged, decode_input, goes_on, RoundRun,
  leaves, not, same_bytes, raw_sent, raw_sysex_message, Drain84, reconnected, connect, connected,
  Connected, SendResult,
}
use s4_mk1_usb2midi.Midi.Send.{TakesWhatFits, send-decode_input, send-sysex}
use s4_mk1_usb2midi.Bridge.RawSysex.{raw_sysex_message-IsSysex}

-- The SysEx copy of a packet, when that of `previous` was the last.
abbrev pub copies : Bool → List ℕ → List ℕ → List (List ℕ)
copies raw packet previous =
    if raw && not (same_bytes packet previous) then raw_sysex_message packet ∷ [] else []

abbrev copied : Bool → List ℕ → Bridge → Bridge
copied raw packet s = record s {
  previous_raw_sysex_packet =
      (if raw && not (same_bytes packet s.previous_raw_sysex_packet)
        then packet
        else s.previous_raw_sysex_packet);
}

-- The state and the messages after a packet that is decoded in the state `s`.
abbrev pub after_packet : MapTables → Bool → List ℕ → Bridge → RoundRun
after_packet t raw packet s =
    let d = decode_input t s.protocol packet in
    record {
      bridge = record (copied raw packet s) { protocol = d.0 };
      messages = copies raw packet s.previous_raw_sysex_packet ++ map (λ m. m.bytes) d.1;
      round_end = goes_on;
    }

module _ (t : MapTables) (o : AppOptions) (api : PacketApi) (midi : CoreMidiBridge) where
  send_all-published :
      {ms : List MidiMessage}
      → All (λ m. send api midi m.bytes ≡ published m.bytes) ms
      → send_all t o api midi ms ≡ (map (λ m. m.bytes) ms, true)
  unfolding send_all add_sent
  send_all-published nil = refl
  send_all-published (cons h hs) = rw (h, send_all-published hs) refl

  pub bridge_round-on_packet :
      (reply : TransferReply) (attempts : List (Option Attempt)) (s : Bridge) (packet : List ℕ)
      → (read_input reply s.device).device ≡ s.device
      → (read_input reply s.device).result ≡ ok packet
      → s.device.disconnected ≡ false
      → bridge_round t o api midi reply attempts s ≡ on_packet t o api midi packet s
  unfolding bridge_round on_read
  bridge_round-on_packet reply attempts s packet e f h =
      ap₂
        (λ (d : UsbDevice) (r : Result (List ℕ)).
          on_read t o api midi d.disconnected r attempts (record s { device = d }))
        e f
      ∙ ap (λ (b : Bool). on_read t o api midi b (ok packet) attempts s) h

  pub on_packet-timeout :
      (s : Bridge)
      → on_packet t o api midi [] s ≡ record { bridge = s; messages = []; round_end = goes_on }
  unfolding on_packet
  on_packet-timeout s = refl

  pub debugged-keeps :
      (packet : List ℕ) (s : Bridge)
      → ((debugged t o api midi packet s).device ≡ s.device)
        × ((debugged t o api midi packet s).protocol ≡ s.protocol)
        × ((debugged t o api midi packet s).drain ≡ s.drain)
        × ((debugged t o api midi packet s).previous_raw_sysex_packet ≡ s.previous_raw_sysex_packet)
  unfolding debugged
  debugged-keeps packet s = keeps o.input_debug
    where
      keeps :
          (b : Bool)
          → ((if b then record s { previous_debug_packet = packet } else s).device ≡ s.device)
            × ((if b then record s { previous_debug_packet = packet } else s).protocol ≡ s.protocol)
            × ((if b then record s { previous_debug_packet = packet } else s).drain ≡ s.drain)
            × ((if b
                  then record s { previous_debug_packet = packet }
                  else s).previous_raw_sysex_packet
                ≡ s.previous_raw_sysex_packet)
      keeps true = (refl, refl, refl, refl)
      keeps false = (refl, refl, refl, refl)

  pub bridge_round-rejoins :
      (reply : TransferReply) (attempts : List (Option Attempt)) (s : Bridge) (d : UsbDevice)
      (drain : Drain84)
      → s.device ≡ d
      → s.drain ≡ drain
      → (read_input reply d).device.disconnected ≡ true
      → (read_input reply d).result ≡ ok []
      → (connect attempts (read_input reply d).device drain).outcome ≡ connected
      → let c = connect attempts (read_input reply d).device drain in
        bridge_round t o api midi reply attempts s ≡ record {
          bridge = record s { device = c.device; drain = c.drain; previous_debug_packet = [] };
          messages = [];
          round_end = goes_on;
        }
  unfolding bridge_round on_read reconnected
  bridge_round-rejoins reply attempts s d drain h k gone empty joined =
      let lost = (read_input reply d).device in
      let c = connect attempts lost drain in
      ap₂
        (λ (x : UsbDevice) (y : Drain84).
          let r = read_input reply x in
          on_read t o api midi r.device.disconnected r.result attempts
            (record s { device = r.device; drain = y }))
        h k
      ∙ ap₂
          (λ (b : Bool) (r : Result (List ℕ)).
            on_read t o api midi b r attempts (record s { device = lost; drain = drain }))
          gone empty
      ∙ ap (λ (x : Connected). reconnected x (record s { device = c.device; drain = c.drain }))
          joined

  module _ (fits : TakesWhatFits api)
      (accepts : (bytes : List ℕ) → api.received midi.source bytes ≡ true) where
    send-raw_sysex_message :
        (packet : List ℕ)
        → send api midi (raw_sysex_message packet) ≡ published (raw_sysex_message packet)
    send-raw_sysex_message packet =
        let (body, form, _, _) = raw_sysex_message-IsSysex packet in
        rw (form) (send-sysex api midi (body ++ 0xf7 ∷ []) fits accepts)

    raw_copy-copied :
        (packet : List ℕ) (s : Bridge)
        → raw_copy t o api midi packet s
          ≡ (copied o.raw_sysex packet s, copies o.raw_sysex packet s.previous_raw_sysex_packet)
    unfolding raw_copy raw_sent
    raw_copy-copied packet s =
        elim (Bool-cases (o.raw_sysex && not (same_bytes packet s.previous_raw_sysex_packet))) [
          | inl e ↦
              rw (e, raw_copy)
                (ap (λ (r : SendResult). raw_sent r packet s) (send-raw_sysex_message packet))
          | inr e ↦ rw (e, raw_copy) refl
        ]

    decoded-after_packet :
        (packet : List ℕ) (s : Bridge)
        → decoded t o api midi packet
            (copied o.raw_sysex packet s, copies o.raw_sysex packet s.previous_raw_sysex_packet)
          ≡ after_packet t o.raw_sysex packet s
    unfolding decoded
    decoded-after_packet packet s =
        let d = decode_input t s.protocol packet in
        ap
          (λ (p : List (List ℕ) × Bool). record {
            bridge = record (copied o.raw_sysex packet s) { protocol = d.0 };
            messages = copies o.raw_sysex packet s.previous_raw_sysex_packet ++ p.0;
            round_end = if p.1 then goes_on else leaves;
          })
          (send_all-published (send-decode_input api midi t s.protocol packet fits accepts))

    pub on_packet-after_packet :
        (b : ℕ) (bs : List ℕ) (s : Bridge)
        → on_packet t o api midi (b ∷ bs) s
          ≡ after_packet t o.raw_sysex (b ∷ bs) (debugged t o api midi (b ∷ bs) s)
    unfolding on_packet
    on_packet-after_packet b bs s =
        let s' = debugged t o api midi (b ∷ bs) s in
        ap (decoded t o api midi (b ∷ bs)) (raw_copy-copied (b ∷ bs) s')
        ∙ decoded-after_packet (b ∷ bs) s'
