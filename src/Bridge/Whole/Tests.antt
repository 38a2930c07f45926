-- ===== src/Bridge/Whole/Tests.antt =====
-- A whole run of the bridge: it connects, publishes two packets with feedback between them, and
use s4_mk1_usb2midi.Bridge.Events.{by_feedback, by_round, at_start}
use s4_mk1_usb2midi.Common.{nil, some, ◌≡◌, ap, ◌∙◌, if◌then◌else◌, refl, ◌∷◌, [], arith, true}
-- returns on a signal.
use s4_mk1_usb2midi.Bridge.Loop.Tests.{
  packet_api, midi_ports, app, received, packets, attempt, lost,
}
use s4_mk1_usb2midi.Usb.Connection.Tests.{options, opened, closed, open_runs, open_runs_again}
use s4_mk1_usb2midi.Bridge.Events.Tests.{mixed, timed_out, lights, sent_2}
use s4_mk1_usb2midi.Bridge.Whole.{
  BridgeReplies, connect, run_bridge, ok, idle_drain, built, connected, returned, running_on,
  Drain84, AppOptions, Bridge, loop_start,
}
use s4_mk1_usb2midi.Usb.{UsbDevice, success, interrupt, transfers}
use s4_mk1_usb2midi.Usb.Connection.{new_device, close, open_usb}
use s4_mk1_usb2midi.Bridge.Events.Interference.{rounds_of}
use s4_mk1_usb2midi.Midi.{new_bridge}
use s4_mk1_usb2midi.Protocol.{new_protocol, byte, s4_tables}
use s4_mk1_usb2midi.Bridge.Whole.Ports.{has_ended, all_created, run_bridge-disposes}
use s4_mk1_usb2midi.Bridge.Loop.Reads.{Reads, reads, no_reads, waits, rejoins}
use s4_mk1_usb2midi.Midi.Resources.{live, live-new_bridge-delete_bridge}
use s4_mk1_usb2midi.Usb.Transfers.Reading.{read_input-view}
use s4_mk1_usb2midi.Bridge.Loop.Waiting.{connect-device, connect-waits, try_once-device}
use s4_mk1_usb2midi.Init.Sequence.Tests.{init_returns_again}
use s4_mk1_usb2midi.Bridge.Whole.Decoding.{run_bridge-published_all}
use s4_mk1_usb2midi.Usb.Transfers.{read_input}
use s4_mk1_usb2midi.Bridge.Loop.Published.{published_all}
use s4_mk1_usb2midi.Bridge.Loop.Ready.{IsReady}
use s4_mk1_usb2midi.Bridge.Feedback.{on_feedback}
use s4_mk1_usb2midi.Bridge.Loop.{bridge_round, goes_on}
use s4_mk1_usb2midi.Bridge.Loop.Steps.{bridge_round-rejoins}
use s4_mk1_usb2midi.Bridge.Whole.Invariant.{
  Reaches-loop_start-IsReady, Reaches-loop_start-injection,
}

abbrev raw_app : AppOptions
raw_app = record app { raw_sysex = true }

abbrev answers : BridgeReplies
answers = record {
  usb_init = success;
  attempts = some attempt ∷ [];
  midi = all_created 1 2 3;
  events = mixed;
  signalled = true;
}

abbrev connected_device : UsbDevice
connected_device = record opened { input_transfer_type = interrupt }

starts_closed : new_device options success ≡ ok closed
unfolding new_device
starts_closed = refl

-- An attempt connects a device of these options from any state of the drain.
attempt_opens : (open_usb attempt.open_replies closed).result ≡ ok tt
attempt_opens = ap (λ r. r.result) open_runs

device_then :
    (drain : Drain84) → (connect (some attempt ∷ []) closed drain).device ≡ connected_device
unfolding close
device_then drain =
    connect-device attempt [] closed drain attempt_opens (init_returns_again drain)
    ∙ try_once-device attempt closed drain attempt_opens
    ∙ ap (λ r. r.device) open_runs

abbrev lost_device : UsbDevice
lost_device = record connected_device { disconnected = true }

device_again :
    (drain : Drain84) → (connect (some attempt ∷ []) lost_device drain).device ≡ connected_device
unfolding close
device_again drain =
    connect-device attempt [] lost_device drain open_runs_again.0 (init_returns_again drain)
    ∙ try_once-device attempt lost_device drain open_runs_again.0
    ∙ open_runs_again.1

joins_again :
    (drain : Drain84) → (connect (some attempt ∷ []) lost_device drain).outcome ≡ connected
unfolding close
joins_again drain =
    connect-waits [] attempt [] lost_device drain nil open_runs_again.0 (init_returns_again drain)

joins : (connect (some attempt ∷ []) closed idle_drain).outcome ≡ connected
unfolding close
joins =
    connect-waits [] attempt [] closed idle_drain nil attempt_opens (init_returns_again idle_drain)

-- Two packets, with a timeout and a loss of the device between them.
reads_then : (drain : Drain84) → Reads connected_device drain (rounds_of mixed) packets
unfolding rounds_of
reads_then drain =
    let first =
      read_input-view (received (0 ∷ 0 ∷ [])) connected_device 7 3 refl refl (omega arith) in
    let nothing = read_input-view timed_out connected_device 7 3 refl refl (omega arith) in
    let gone = read_input-view lost connected_device 7 3 refl refl (omega arith) in
    let second =
      read_input-view (received (0 ∷ 9 ∷ [])) connected_device 7 3 refl refl (omega arith) in
    let rest : (after : Drain84)
        → Reads connected_device after ((received (0 ∷ 9 ∷ []), []) ∷ []) ((0 ∷ 9 ∷ []) ∷ []) =
      λ after. reads (ap (λ r. r.device) second) (ap (λ r. r.result) second) no_reads in
    let back : (connect (some attempt ∷ []) (read_input lost connected_device).device drain).device
        ≡ connected_device =
      ap (λ (x : UsbDevice). (connect (some attempt ∷ []) x drain).device) (ap (λ r. r.device) gone)
      ∙ device_again drain in
    reads (ap (λ r. r.device) first) (ap (λ r. r.result) first) (
      waits (ap (λ r. r.device) nothing) (ap (λ r. r.result) nothing) (
        rejoins (ap (λ r. r.device.disconnected) gone) (ap (λ r. r.result) gone)
          (ap (λ (x : UsbDevice). (connect (some attempt ∷ []) x drain).outcome)
              (ap (λ r. r.device) gone)
            ∙ joins_again drain)
          (rw back (rest _))))

creates : (new_bridge (all_created 1 2 3)).0 ≡ built midi_ports
creates =
    (live-new_bridge-delete_bridge 1 2 3 (λ e. absurd (omega (arith, e)))
      (λ e. absurd (omega (arith, e))) (λ e. absurd (omega (arith, e)))).0

run_bridge-published_all_example :
    let p = new_protocol 0 0 byte in
    ((run_bridge s4_tables raw_app packet_api answers).messages
      ≡ published_all s4_tables true p [] packets)
    × ((run_bridge s4_tables raw_app packet_api answers).ending
        ≡ (if true then returned 0 else running_on))
run_bridge-published_all_example =
    run_bridge-published_all s4_tables raw_app packet_api answers closed midi_ports packets
      starts_closed joins creates (λ size bytes h. ground arith) (λ bytes. refl)
      (rw (device_then idle_drain) (reads_then _))

run_bridge-disposes_example :
    live [] (run_bridge s4_tables raw_app packet_api answers).midi_calls ≡ []
unfolding has_ended
run_bridge-disposes_example =
    run_bridge-disposes s4_tables raw_app packet_api answers 1 2 3 (λ e. absurd (omega (arith, e)))
      (λ e. absurd (omega (arith, e))) (λ e. absurd (omega (arith, e))) refl
      (ap has_ended run_bridge-published_all_example.1)

-- From the start of the loop: a loss of the device, and a message.
abbrev first_state : Bridge
first_state = loop_start (connect (some attempt ∷ []) closed idle_drain) (new_protocol 0 0 byte)

abbrev second_state : Bridge
second_state =
    (bridge_round s4_tables raw_app packet_api midi_ports lost (some attempt ∷ [])
      first_state).bridge

rejoin_goes_on :
    (bridge_round s4_tables raw_app packet_api midi_ports lost
      (some attempt ∷ [])
      first_state).round_end
    ≡ goes_on
rejoin_goes_on =
    let drain = (connect (some attempt ∷ []) closed idle_drain).drain in
    let gone = read_input-view lost connected_device 7 3 refl refl (omega arith) in
    ap (λ r. r.round_end)
      (bridge_round-rejoins s4_tables raw_app packet_api midi_ports lost (some attempt ∷ [])
        first_state connected_device drain (device_then idle_drain) refl
        (ap (λ r. r.device.disconnected) gone) (ap (λ r. r.result) gone)
        (ap (λ (x : UsbDevice). (connect (some attempt ∷ []) x drain).outcome)
            (ap (λ r. r.device) gone)
          ∙ joins_again drain))

Reaches-loop_start-IsReady_example : IsReady options (on_feedback lights sent_2 second_state).0
Reaches-loop_start-IsReady_example =
    Reaches-loop_start-IsReady s4_tables raw_app packet_api midi_ports answers closed
      (on_feedback lights sent_2 second_state).0 starts_closed joins
      (by_feedback lights sent_2 (by_round lost (some attempt ∷ []) at_start rejoin_goes_on))

Reaches-loop_start-injection_example :
    (on_feedback lights sent_2 first_state).1
    ≡ transfers first_state.device.output_transfer_type 1 (5 ∷ 6 ∷ []) 50 ∷ []
Reaches-loop_start-injection_example =
    Reaches-loop_start-injection s4_tables raw_app packet_api midi_ports answers closed first_state
      (5 ∷ 6 ∷ []) sent_2 starts_closed joins at_start
      (ap (λ (x : UsbDevice). x.disconnected) (device_then idle_drain)) refl
