-- ===== src/Bridge/Loop.antt =====
-- The connection and the main loop of run_bridge of src/main.cpp.
pub mod Steps
pub mod Reads
pub mod Published
pub mod Rounds
pub mod Reconnection
pub mod Connecting
pub mod Waiting
pub mod Ready
pub mod Warned
pub mod Tests
use s4_mk1_usb2midi.Usb.{multiple_devices, UsbDevice, UsbError, Result, ok, ◌>>◌, err, undefined}
use s4_mk1_usb2midi.Common.{
  ℕ, Bool, true, false, not, ◌&&◌, Option, none, some, List, [], ◌∷◌, ◌++◌, ◌==◌, if◌then◌else◌,
}
use s4_mk1_usb2midi.Usb.Connection.{OpenReplies, close, open_usb}
use s4_mk1_usb2midi.Init.{Ending, threw, returned, still_waiting}
use s4_mk1_usb2midi.Protocol.{S4GenericProtocol, MapTables, MidiMessage, decode_input}
use s4_mk1_usb2midi.Midi.{
  SendResult, published, PacketApi, nothing_to_send, CoreMidiBridge, build_failed, send,
  publish_failed,
}
use s4_mk1_usb2midi.Init.Sequence.{StepReplies, Drain84, s4_mk1_init}
use s4_mk1_usb2midi.Cli.Arguments.{AppOptions}
use s4_mk1_usb2midi.Usb.Transfers.{TransferReply, read_input}
use s4_mk1_usb2midi.Bridge.RawSysex.{raw_sysex_message}

abbrev same_bytes : List ℕ → List ℕ → Bool
same_bytes [] [] = true
same_bytes [] (y ∷ ys) = false
same_bytes (x ∷ xs) [] = false
same_bytes (x ∷ xs) (y ∷ ys) = x == y && same_bytes xs ys

-- One round of `connect`: what libusb answers to `open` and to the initialization.
pub record Attempt : Type 0 where
  pub open_replies : OpenReplies
  pub init_replies : ℕ → StepReplies

-- `several_devices` is the error that ends `connect`; any other exception is retried.
pub data Tried : Type 0 where
  succeeded retried several_devices hangs reads_outside : Tried

pub record TryRun : Type 0 where
  pub device : UsbDevice
  pub drain : Drain84
  pub tried : Tried

tried_open : UsbError → Tried
tried_open e = elim e [ multiple_devices ↦ several_devices | _ ↦ retried ]

tried_init : Ending → Tried
tried_init returned = succeeded
tried_init (threw e) = retried
tried_init still_waiting = hangs

try_init : Result (Unit {0}) → (ℕ → StepReplies) → UsbDevice → Drain84 → TryRun
unfolding tried_open tried_init
try_init (ok u) replies d drain =
    let r = s4_mk1_init replies drain in
    record { device = d; drain = r.drain; tried = tried_init r.ending }
try_init (err e) replies d drain = record { device = d; drain = drain; tried = tried_open e }
try_init undefined replies d drain = record { device = d; drain = drain; tried = reads_outside }

pub try_once : Attempt → UsbDevice → Drain84 → TryRun
unfolding try_init
try_once a d drain =
    let r = (close >> open_usb a.open_replies) d in try_init r.result a.init_replies r.device drain

-- `trying` is a loop that goes on when the attempts end.
pub data Connected : Type 0 where
  connected refused trying failed : Connected

pub record ConnectRun : Type 0 where
  pub device : UsbDevice
  pub drain : Drain84
  pub outcome : Connected

connect_end : Tried → TryRun → ConnectRun → ConnectRun
connect_end succeeded r rest = record { device = r.device; drain = r.drain; outcome = connected }
connect_end retried r rest = rest
connect_end several_devices r rest = record {
  device = r.device;
  drain = r.drain;
  outcome = refused;
}
connect_end hangs r rest = record { device = r.device; drain = r.drain; outcome = trying }
connect_end reads_outside r rest = record { device = r.device; drain = r.drain; outcome = failed }

-- `none` is a test of `running` after a signal has cleared it.
pub connect : List (Option Attempt) → UsbDevice → Drain84 → ConnectRun
unfolding try_once connect_end
connect [] d drain = record { device = d; drain = drain; outcome = trying }
connect (none ∷ attempts) d drain = record { device = d; drain = drain; outcome = refused }
connect (some a ∷ attempts) d drain =
    let r = try_once a d drain in
    let rest = connect attempts r.device r.drain in connect_end r.tried r rest

pub record Bridge : Type 0 where
  pub protocol : S4GenericProtocol
  pub device : UsbDevice
  pub drain : Drain84
  pub previous_debug_packet : List ℕ
  pub previous_raw_sysex_packet : List ℕ

-- How a round of the main loop ends: with the next round, with the end of the loop, with an
-- exception that leaves run_bridge, or not at all.
pub data RoundEnd : Type 0 where
  goes_on loop_ends leaves hung : RoundEnd

pub record RoundRun : Type 0 where
  pub bridge : Bridge
  pub messages : List (List ℕ)
  pub round_end : RoundEnd

-- The messages that were published, and whether all of them were.
add_sent : SendResult → List (List ℕ) × Bool → List (List ℕ) × Bool
add_sent nothing_to_send rest = rest
add_sent (published bytes) (sent, all) = (bytes ∷ sent, all)
add_sent build_failed rest = ([], false)
add_sent publish_failed rest = ([], false)

raw_sent : SendResult → List ℕ → Bridge → Bridge × List (List ℕ)
raw_sent nothing_to_send packet s = (record s { previous_raw_sysex_packet = packet }, [])
raw_sent (published m) packet s = (record s { previous_raw_sysex_packet = packet }, m ∷ [])
raw_sent build_failed packet s = (s, [])
raw_sent publish_failed packet s = (s, [])

reconnected : Connected → Bridge → RoundRun
reconnected connected s = record {
  bridge = record s { previous_debug_packet = [] };
  messages = [];
  round_end = goes_on;
}
reconnected refused s = record { bridge = s; messages = []; round_end = loop_ends }
reconnected trying s = record { bridge = s; messages = []; round_end = hung }
reconnected failed s = record { bridge = s; messages = []; round_end = leaves }

module _ (t : MapTables) (o : AppOptions) (api : PacketApi) (midi : CoreMidiBridge) where
  pub send_all : List MidiMessage → List (List ℕ) × Bool
  unfolding add_sent
  send_all [] = ([], true)
  send_all (m ∷ ms) = let rest = send_all ms in add_sent (send api midi m.bytes) rest

  raw_copy : List ℕ → Bridge → Bridge × List (List ℕ)
  unfolding raw_sent
  raw_copy packet s =
      if o.raw_sysex && not (same_bytes packet s.previous_raw_sysex_packet)
      then raw_sent (send api midi (raw_sysex_message packet)) packet s
      else (s, [])

  pub debugged : List ℕ → Bridge → Bridge
  debugged packet s = if o.input_debug then record s { previous_debug_packet = packet } else s

  decoded : List ℕ → Bridge × List (List ℕ) → RoundRun
  unfolding send_all
  decoded packet (s, copies) =
      let (protocol, ms) = decode_input t s.protocol packet in
      let (sent, all) = send_all ms in
      record {
        bridge = record s { protocol = protocol };
        messages = copies ++ sent;
        round_end = if all then goes_on else leaves;
      }

  -- An empty packet is a timeout.
  pub on_packet : List ℕ → Bridge → RoundRun
  unfolding raw_copy debugged decoded
  on_packet [] s = record { bridge = s; messages = []; round_end = goes_on }
  on_packet (b ∷ bs) s = decoded (b ∷ bs) (raw_copy (b ∷ bs) (debugged (b ∷ bs) s))

  on_read : Bool → Result (List ℕ) → List (Option Attempt) → Bridge → RoundRun
  unfolding connect reconnected on_packet
  on_read lost (err e) attempts s = record { bridge = s; messages = []; round_end = leaves }
  on_read lost undefined attempts s = record { bridge = s; messages = []; round_end = leaves }
  on_read false (ok packet) attempts s = on_packet packet s
  on_read true (ok packet) attempts s =
      let c = connect attempts s.device s.drain in
      reconnected c.outcome (record s { device = c.device; drain = c.drain })

  pub bridge_round : TransferReply → List (Option Attempt) → Bridge → RoundRun
  unfolding on_read
  bridge_round reply attempts s =
      let r = read_input reply s.device in
      on_read r.device.disconnected r.result attempts (record s { device = r.device })

  -- The rounds of the main loop, until one ends it.
  unfoldable pub next_round : RoundEnd → RoundRun → RoundRun → RoundRun
  next_round goes_on r rest = record rest { messages = r.messages ++ rest.messages }
  next_round loop_ends r rest = r
  next_round leaves r rest = r
  next_round hung r rest = r

  unfoldable pub run_rounds : List (TransferReply × List (Option Attempt)) → Bridge → RoundRun
  unfolding bridge_round next_round
  run_rounds [] s = record { bridge = s; messages = []; round_end = goes_on }
  run_rounds ((reply, attempts) ∷ rounds) s =
      let r = bridge_round reply attempts s in
      let rest = run_rounds rounds r.bridge in next_round r.round_end r rest
