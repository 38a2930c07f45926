-- ===== src/Bridge/Loop/Ready.antt =====
-- What holds of the state of run_bridge of src/main.cpp at the head of its main loop.
use s4_mk1_usb2midi.Common.{
  true, refl, ◌≡◌, ℕ, some, List, Bool, Bool-cases, ◌∷◌, Option, inl, ◌&&◌, arith, inr, not, [],
  ◌∙◌, false,
}
use s4_mk1_usb2midi.Usb.{UsbOptions, undefined}
use s4_mk1_usb2midi.Bridge.Loop.{
  reconnected, Bridge, ConnectRun, AppOptions, PacketApi, CoreMidiBridge, connected, debugged,
  raw_sent, raw_copy, on_packet, on_read, bridge_round, SendResult, decoded, TransferReply, goes_on,
  published, Result, Connected, Attempt, err, read_input, same_bytes, ok, refused, send, connect,
  trying, raw_sysex_message, failed,
}
use s4_mk1_usb2midi.Protocol.{MapTables}
use s4_mk1_usb2midi.Protocol.Baseline.{IsConfigured, decode_input-IsConfigured}
use s4_mk1_usb2midi.Bridge.Loop.Connecting.{IsUsable, connect-IsUsable}
use s4_mk1_usb2midi.Midi.{nothing_to_send, build_failed, publish_failed}
use s4_mk1_usb2midi.Usb.Transfers.Effects.{read_input-Steady}

-- The settings are in range, and the device has its options and is open.
pub record IsReady (u : UsbOptions) (s : Bridge) : Type 0 where
  pub configured : IsConfigured s.protocol
  pub options : s.device.options ≡ u
  pub opened : (h : ℕ) × (s.device.handle ≡ some h)

reconnected-IsReady :
    (u : UsbOptions) (c : ConnectRun) (s : Bridge)
    → IsConfigured s.protocol
    → (c.outcome ≡ connected → IsUsable u c.device)
    → (reconnected c.outcome (record s { device = c.device; drain = c.drain })).round_end ≡ goes_on
    → IsReady u (reconnected c.outcome (record s { device = c.device; drain = c.drain })).bridge
unfolding reconnected
reconnected-IsReady u c s h k e = at c.outcome k e
  where
    at :
        (o : Connected)
        → (o ≡ connected → IsUsable u c.device)
        → (reconnected o (record s { device = c.device; drain = c.drain })).round_end ≡ goes_on
        → IsReady u (reconnected o (record s { device = c.device; drain = c.drain })).bridge
    at connected k e =
        let usable = k refl in
        record { configured = h; options = usable.options; opened = usable.opened }
    at refused k e = ground arith
    at trying k e = ground arith
    at failed k e = ground arith

module _ (t : MapTables) (o : AppOptions) (api : PacketApi) (midi : CoreMidiBridge)
    (u : UsbOptions) where
  debugged-IsReady :
      (packet : List ℕ) (s : Bridge) → IsReady u s → IsReady u (debugged t o api midi packet s)
  unfolding debugged
  debugged-IsReady packet s h = elim (Bool-cases o.input_debug) [
    | inl e ↦
        rw (e, debugged)
          (record { configured = h.configured; options = h.options; opened = h.opened })
    | inr e ↦ rw (e, debugged) h
  ]

  raw_sent-IsReady :
      (r : SendResult) (packet : List ℕ) (s : Bridge)
      → IsReady u s
      → IsReady u (raw_sent r packet s).0
  unfolding raw_sent
  raw_sent-IsReady nothing_to_send packet s h = record {
    configured = h.configured;
    options = h.options;
    opened = h.opened;
  }
  raw_sent-IsReady (published m) packet s h = record {
    configured = h.configured;
    options = h.options;
    opened = h.opened;
  }
  raw_sent-IsReady build_failed packet s h = h
  raw_sent-IsReady publish_failed packet s h = h

  raw_copy-IsReady :
      (packet : List ℕ) (s : Bridge) → IsReady u s → IsReady u (raw_copy t o api midi packet s).0
  unfolding raw_copy
  raw_copy-IsReady packet s h =
      elim (Bool-cases (o.raw_sysex && not (same_bytes packet s.previous_raw_sysex_packet))) [
        | inl e ↦
            rw (e, raw_copy)
              (raw_sent-IsReady (send api midi (raw_sysex_message packet)) packet s h)
        | inr e ↦ rw (e, raw_copy) h
      ]

  on_packet-IsReady :
      (packet : List ℕ) (s : Bridge)
      → IsReady u s
      → IsReady u (on_packet t o api midi packet s).bridge
  unfolding on_packet decoded
  on_packet-IsReady [] s h = h
  on_packet-IsReady (b ∷ bs) s h =
      let s' = (raw_copy t o api midi (b ∷ bs) (debugged t o api midi (b ∷ bs) s)).0 in
      let k : IsReady u s' = raw_copy-IsReady (b ∷ bs) _ (debugged-IsReady (b ∷ bs) s h) in
      record {
        configured = decode_input-IsConfigured t s'.protocol (b ∷ bs) k.configured;
        options = k.options;
        opened = k.opened;
      }

  on_read-IsReady :
      (lost : Bool) (r : Result (List ℕ)) (attempts : List (Option Attempt)) (s : Bridge)
      → IsReady u s
      → (on_read t o api midi lost r attempts s).round_end ≡ goes_on
      → IsReady u (on_read t o api midi lost r attempts s).bridge
  unfolding on_read
  on_read-IsReady lost (err e) attempts s h g = ground arith
  on_read-IsReady lost undefined attempts s h g = ground arith
  on_read-IsReady false (ok packet) attempts s h g = on_packet-IsReady packet s h
  on_read-IsReady true (ok packet) attempts s h g =
      let c = connect attempts s.device s.drain in
      reconnected-IsReady u c s h.configured
        (connect-IsUsable attempts s.device s.drain u h.options) g

  -- A round that goes on keeps all of that, whatever libusb and CoreMIDI answer.
  pub bridge_round-IsReady :
      (reply : TransferReply) (attempts : List (Option Attempt)) (s : Bridge)
      → IsReady u s
      → (bridge_round t o api midi reply attempts s).round_end ≡ goes_on
      → IsReady u (bridge_round t o api midi reply attempts s).bridge
  unfolding bridge_round
  bridge_round-IsReady reply attempts s h g =
      let r = read_input reply s.device in
      let steady = read_input-Steady reply s.device in
      on_read-IsReady r.device.disconnected r.result attempts (record s { device = r.device })
        (record {
          configured = h.configured;
          options = steady.0 ∙ h.options;
          opened = (h.opened.0, steady.1 ∙ h.opened.1);
        })
        g
