-- ===== src/Bridge/Loop/Warned.antt =====
-- The rounds of run_bridge of src/main.cpp do not read whether encode_output has warned.
use s4_mk1_usb2midi.Common.{
  refl, true, false, Bool, List, ◌≡◌, ℕ, Bool-cases, ap, ◌∷◌, inl, ◌&&◌, ◌∙◌, Option, inr, not, [],
  ◌++◌, if◌then◌else◌,
}
use s4_mk1_usb2midi.Bridge.Loop.{
  raw_sent, reconnected, Bridge, RoundRun, SendResult, Connected, AppOptions, PacketApi,
  CoreMidiBridge, connected, published, debugged, raw_copy, decoded, on_packet, on_read,
  bridge_round, next_round, run_rounds, refused, Result, TransferReply, RoundEnd, trying,
  S4GenericProtocol, failed, goes_on, MidiMessage, Attempt, loop_ends, same_bytes, send_all, err,
  read_input, leaves, send, ok, hung, raw_sysex_message, connect,
}
use s4_mk1_usb2midi.Protocol.{MapTables}
use s4_mk1_usb2midi.Midi.{nothing_to_send, build_failed, publish_failed}
use s4_mk1_usb2midi.Protocol.Baseline.{decode_input-warned}
use s4_mk1_usb2midi.Usb.{undefined}

abbrev pub with_warned : Bool → Bridge → Bridge
with_warned w s = record s { protocol = record s.protocol { warned_about_led_protocol = w } }

abbrev pub run_warned : Bool → RoundRun → RoundRun
run_warned w r = record r { bridge = with_warned w r.bridge }

raw_sent-warned :
    (w : Bool) (r : SendResult) (packet : List ℕ) (s : Bridge)
    → raw_sent r packet (with_warned w s)
      ≡ (with_warned w (raw_sent r packet s).0, (raw_sent r packet s).1)
unfolding raw_sent
raw_sent-warned w nothing_to_send packet s = refl
raw_sent-warned w (published m) packet s = refl
raw_sent-warned w build_failed packet s = refl
raw_sent-warned w publish_failed packet s = refl

reconnected-warned :
    (w : Bool) (c : Connected) (s : Bridge)
    → reconnected c (with_warned w s) ≡ run_warned w (reconnected c s)
unfolding reconnected
reconnected-warned w connected s = refl
reconnected-warned w refused s = refl
reconnected-warned w trying s = refl
reconnected-warned w failed s = refl

module _ (t : MapTables) (o : AppOptions) (api : PacketApi) (midi : CoreMidiBridge) (w : Bool) where
  debugged-warned :
      (packet : List ℕ) (s : Bridge)
      → debugged t o api midi packet (with_warned w s)
        ≡ with_warned w (debugged t o api midi packet s)
  unfolding debugged
  debugged-warned packet s = elim (Bool-cases o.input_debug) [
    | inl e ↦ rw (e, debugged) refl
    | inr e ↦ rw (e, debugged) refl
  ]

  raw_copy-warned :
      (packet : List ℕ) (s : Bridge)
      → raw_copy t o api midi packet (with_warned w s)
        ≡ (with_warned w (raw_copy t o api midi packet s).0, (raw_copy t o api midi packet s).1)
  unfolding raw_copy
  raw_copy-warned packet s =
      elim (Bool-cases (o.raw_sysex && not (same_bytes packet s.previous_raw_sysex_packet))) [
        | inl e ↦
            rw (e, raw_copy) (raw_sent-warned w (send api midi (raw_sysex_message packet)) packet s)
        | inr e ↦ rw (e, raw_copy) refl
      ]

  decoded-warned :
      (packet : List ℕ) (s : Bridge) (copies : List (List ℕ))
      → decoded t o api midi packet (with_warned w s, copies)
        ≡ run_warned w (decoded t o api midi packet (s, copies))
  unfolding decoded
  decoded-warned packet s copies =
      ap
        (λ (d : S4GenericProtocol × List MidiMessage).
          let sent = send_all t o api midi d.1 in
          record {
            bridge = record s { protocol = d.0 };
            messages = copies ++ sent.0;
            round_end = if sent.1 then goes_on else leaves;
          })
        (decode_input-warned t s.protocol w packet)

  on_packet-warned :
      (packet : List ℕ) (s : Bridge)
      → on_packet t o api midi packet (with_warned w s)
        ≡ run_warned w (on_packet t o api midi packet s)
  unfolding on_packet
  on_packet-warned [] s = refl
  on_packet-warned (b ∷ bs) s =
      let s' = debugged t o api midi (b ∷ bs) s in
      ap (λ x. decoded t o api midi (b ∷ bs) (raw_copy t o api midi (b ∷ bs) x))
        (debugged-warned (b ∷ bs) s)
      ∙ ap (decoded t o api midi (b ∷ bs)) (raw_copy-warned (b ∷ bs) s')
      ∙ decoded-warned (b ∷ bs) (raw_copy t o api midi (b ∷ bs) s').0
          (raw_copy t o api midi (b ∷ bs) s').1

  on_read-warned :
      (lost : Bool) (r : Result (List ℕ)) (attempts : List (Option Attempt)) (s : Bridge)
      → on_read t o api midi lost r attempts (with_warned w s)
        ≡ run_warned w (on_read t o api midi lost r attempts s)
  unfolding on_read
  on_read-warned lost (err e) attempts s = refl
  on_read-warned lost undefined attempts s = refl
  on_read-warned false (ok packet) attempts s = on_packet-warned packet s
  on_read-warned true (ok packet) attempts s =
      let c = connect attempts s.device s.drain in
      reconnected-warned w c.outcome (record s { device = c.device; drain = c.drain })

  -- A round from a state with another warning flag does the same, and keeps that flag.
  pub bridge_round-warned :
      (reply : TransferReply) (attempts : List (Option Attempt)) (s : Bridge)
      → bridge_round t o api midi reply attempts (with_warned w s)
        ≡ run_warned w (bridge_round t o api midi reply attempts s)
  unfolding bridge_round
  bridge_round-warned reply attempts s =
      let r = read_input reply s.device in
      on_read-warned r.device.disconnected r.result attempts (record s { device = r.device })

  next_round-warned :
      (e : RoundEnd) (r rest : RoundRun)
      → next_round t o api midi e (run_warned w r) (run_warned w rest)
        ≡ run_warned w (next_round t o api midi e r rest)
  unfolding next_round
  next_round-warned goes_on r rest = refl
  next_round-warned loop_ends r rest = refl
  next_round-warned leaves r rest = refl
  next_round-warned hung r rest = refl

  pub run_rounds-warned :
      (rounds : List (TransferReply × List (Option Attempt))) (s : Bridge)
      → run_rounds t o api midi rounds (with_warned w s)
        ≡ run_warned w (run_rounds t o api midi rounds s)
  unfolding run_rounds
  run_rounds-warned [] s = refl
  run_rounds-warned ((reply, attempts) ∷ rounds) s =
      let r = bridge_round t o api midi reply attempts s in
      ap
        (λ (x : RoundRun).
          next_round t o api midi x.round_end x (run_rounds t o api midi rounds x.bridge))
        (bridge_round-warned reply attempts s)
      ∙ ap (next_round t o api midi r.round_end (run_warned w r))
          (run_rounds-warned rounds r.bridge)
      ∙ next_round-warned r.round_end r (run_rounds t o api midi rounds r.bridge)
