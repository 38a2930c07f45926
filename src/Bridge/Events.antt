-- ===== src/Bridge/Events.antt =====
-- run_bridge of src/main.cpp as a sequence of events: the rounds of its main loop and the calls of
-- its feedback callback, which CoreMIDI makes between them. A callback is one event.
pub mod Interference
pub mod Invariant
pub mod Tests
use s4_mk1_usb2midi.Common.{◌∷◌, [], ℕ, List, Option, ◌++◌, ◌≡◌}
use s4_mk1_usb2midi.Usb.Transfers.{TransferReply}
use s4_mk1_usb2midi.Bridge.Loop.{Bridge, RoundEnd, RoundRun, Attempt, goes_on, bridge_round}
use s4_mk1_usb2midi.Protocol.{MapTables}
use s4_mk1_usb2midi.Usb.{UsbCall}
use s4_mk1_usb2midi.Cli.Arguments.{AppOptions}
use s4_mk1_usb2midi.Midi.{PacketApi, CoreMidiBridge}
use s4_mk1_usb2midi.Bridge.Feedback.{on_feedback}

pub data BridgeEvent : Type 0 where
  round : TransferReply → List (Option Attempt) → BridgeEvent
  feedback : List ℕ → TransferReply → BridgeEvent

-- `writes` are the USB calls of the callbacks.
pub record EventsRun : Type 0 where
  pub bridge : Bridge
  pub messages : List (List ℕ)
  pub writes : List UsbCall
  pub round_end : RoundEnd

-- After a round that ends the loop no callback writes: the ports are gone.
after_round : RoundEnd → RoundRun → EventsRun → EventsRun
after_round goes_on r rest = record rest { messages = r.messages ++ rest.messages }
after_round e r rest = record {
  bridge = r.bridge;
  messages = r.messages;
  writes = [];
  round_end = e;
}

module _ (t : MapTables) (o : AppOptions) (api : PacketApi) (midi : CoreMidiBridge) where
  pub run_events : List BridgeEvent → Bridge → EventsRun
  unfolding after_round
  run_events [] s = record { bridge = s; messages = []; writes = []; round_end = goes_on }
  run_events (round reply attempts ∷ events) s =
      let r = bridge_round t o api midi reply attempts s in
      let rest = run_events events r.bridge in after_round r.round_end r rest
  run_events (feedback m reply ∷ events) s =
      let (s', calls) = on_feedback m reply s in
      let rest = run_events events s' in record rest { writes = calls ++ rest.writes }

  -- The states at the head of the main loop and before its callbacks.
  pub data Reaches (s : Bridge) : Bridge → Type 0 where
    at_start : Reaches s s
    by_round :
        {s' : Bridge} (reply : TransferReply) (attempts : List (Option Attempt))
        → Reaches s s'
        → (bridge_round t o api midi reply attempts s').round_end ≡ goes_on
        → Reaches s (bridge_round t o api midi reply attempts s').bridge
    by_feedback :
        {s' : Bridge} (m : List ℕ) (reply : TransferReply)
        → Reaches s s'
        → Reaches s (on_feedback m reply s').0
