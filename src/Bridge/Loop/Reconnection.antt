-- ===== src/Bridge/Loop/Reconnection.antt =====
-- A round of run_bridge that loses the device and connects again.
use s4_mk1_usb2midi.Common.{
  ◌≡◌, ◌∙◌, ap, ap₂, refl, [], ◌∷◌, List, Bool, true, false, Option, arith,
}
use s4_mk1_usb2midi.Usb.{UsbDevice, undefined, ◌>>◌, and_then}
use s4_mk1_usb2midi.Protocol.{MapTables}
use s4_mk1_usb2midi.Usb.Transfers.{TransferReply}
use s4_mk1_usb2midi.Cli.Arguments.{AppOptions}
use s4_mk1_usb2midi.Midi.{PacketApi, CoreMidiBridge}
use s4_mk1_usb2midi.Bridge.Loop.{
  Attempt, ℕ, bridge_round, read_input, on_read, ok, Bridge, Result, goes_on, Connected,
  reconnected, err, connected, connect, refused, trying, failed, try_once, connect_end, try_init,
  succeeded, tried_init, some, Drain84, Tried, close, open_usb, s4_mk1_init, returned,
}

reconnected-keeps :
    (c : Connected) (x : Bridge)
    → (reconnected c x).round_end ≡ goes_on
    → ((reconnected c x).bridge.protocol ≡ x.protocol)
      × ((reconnected c x).bridge.previous_raw_sysex_packet ≡ x.previous_raw_sysex_packet)
      × ((reconnected c x).bridge.previous_debug_packet ≡ [])
unfolding reconnected
reconnected-keeps connected x e = (refl, refl, refl)
reconnected-keeps refused x e = ground arith
reconnected-keeps trying x e = ground arith
reconnected-keeps failed x e = ground arith

on_read-reconnects :
    (t : MapTables) (o : AppOptions) (api : PacketApi) (midi : CoreMidiBridge) (lost : Bool)
    (r : Result (List ℕ)) (attempts : List (Option Attempt)) (x : Bridge) (packet : List ℕ)
    → lost ≡ true
    → r ≡ ok packet
    → (on_read t o api midi lost r attempts x).round_end ≡ goes_on
    → ((on_read t o api midi lost r attempts x).bridge.protocol ≡ x.protocol)
      × ((on_read t o api midi lost r attempts x).bridge.previous_raw_sysex_packet
          ≡ x.previous_raw_sysex_packet)
      × ((on_read t o api midi lost r attempts x).bridge.previous_debug_packet ≡ [])
unfolding on_read
on_read-reconnects t o api midi false r attempts x packet e f g = ground arith
on_read-reconnects t o api midi true (err y) attempts x packet e f g = ground arith
on_read-reconnects t o api midi true undefined attempts x packet e f g = ground arith
on_read-reconnects t o api midi true (ok p) attempts x packet e f g =
    let c = connect attempts x.device x.drain in
    reconnected-keeps c.outcome (record x { device = c.device; drain = c.drain }) g

-- A round that loses the device and connects again clears the packet of the debug output, and keeps
-- the decoder and the last raw SysEx packet as they were before the loss.
pub bridge_round-reconnects :
    (t : MapTables) (o : AppOptions) (api : PacketApi) (midi : CoreMidiBridge) (s : Bridge)
    (reply : TransferReply) (attempts : List (Option Attempt)) (packet : List ℕ)
    → (read_input reply s.device).device.disconnected ≡ true
    → (read_input reply s.device).result ≡ ok packet
    → (bridge_round t o api midi reply attempts s).round_end ≡ goes_on
    → ((bridge_round t o api midi reply attempts s).bridge.protocol ≡ s.protocol)
      × ((bridge_round t o api midi reply attempts s).bridge.previous_raw_sysex_packet
          ≡ s.previous_raw_sysex_packet)
      × ((bridge_round t o api midi reply attempts s).bridge.previous_debug_packet ≡ [])
unfolding bridge_round
bridge_round-reconnects t o api midi s reply attempts packet e f g =
    on_read-reconnects t o api midi _ _ attempts
      (record s { device = (read_input reply s.device).device }) packet e f g

-- An attempt succeeds when the device opens and its initialization returns.
pub try_once-succeeds :
    (a : Attempt) (d : UsbDevice) (drain : Drain84)
    → (close d).result ≡ ok tt
    → (open_usb a.open_replies (close d).device).result ≡ ok tt
    → (s4_mk1_init a.init_replies drain).ending ≡ returned
    → (try_once a d drain).tried ≡ succeeded
unfolding try_once try_init tried_init
try_once-succeeds a d drain h g e =
    let r = (close >> open_usb a.open_replies) d in
    let opens : r.result ≡ ok tt =
      ap
        (λ (x : Result (Unit {0})).
          (and_then x (close d).calls (close d).device λ u. open_usb a.open_replies).result)
        h
      ∙ g in
    ap (λ (x : Result (Unit {0})). (try_init x a.init_replies r.device drain).tried) opens
    ∙ ap tried_init e

-- A round that loses the device goes on when the first attempt to connect succeeds.
pub bridge_round-goes_on :
    (t : MapTables) (o : AppOptions) (api : PacketApi) (midi : CoreMidiBridge) (s : Bridge)
    (reply : TransferReply) (a : Attempt) (attempts : List (Option Attempt)) (packet : List ℕ)
    (d : UsbDevice)
    → (read_input reply s.device).device ≡ d
    → (read_input reply s.device).result ≡ ok packet
    → d.disconnected ≡ true
    → (try_once a d s.drain).tried ≡ succeeded
    → (bridge_round t o api midi reply (some a ∷ attempts) s).round_end ≡ goes_on
unfolding bridge_round on_read connect connect_end reconnected
bridge_round-goes_on t o api midi s reply a attempts packet d e f l k =
    ap₂
      (λ (x : UsbDevice) (r : Result (List ℕ)).
        (on_read t o api midi x.disconnected r (some a ∷ attempts)
          (record s { device = x })).round_end)
      e f
    ∙ ap
        (λ (b : Bool).
          (on_read t o api midi b (ok packet) (some a ∷ attempts)
            (record s { device = d })).round_end)
        l
    ∙ ap
        (λ (x : Tried).
          let r = try_once a d s.drain in
          let c = connect_end x r (connect attempts r.device r.drain) in
          (reconnected c.outcome (record s { device = c.device; drain = c.drain })).round_end)
        k
