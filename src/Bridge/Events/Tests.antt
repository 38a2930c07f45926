-- ===== src/Bridge/Events/Tests.antt =====
-- Runs with feedback between the rounds.
use s4_mk1_usb2midi.Common.{◌∷◌, [], ℕ, List, ◌≡◌, Bool, some}
use s4_mk1_usb2midi.Bridge.Loop.Tests.{lost, packet_api, midi_ports, app, start, received, attempt}
use s4_mk1_usb2midi.Protocol.{s4_tables}
use s4_mk1_usb2midi.Bridge.Events.{round, feedback, run_events, TransferReply, BridgeEvent}
use s4_mk1_usb2midi.Bridge.Loop.{run_rounds}
use s4_mk1_usb2midi.Usb.{success, failure, timeout}
use s4_mk1_usb2midi.Bridge.Events.Interference.{rounds_of, run_events-run_rounds}
use s4_mk1_usb2midi.Protocol.Feedback.{injection}
use s4_mk1_usb2midi.Bridge.Loop.Warned.{with_warned}

abbrev pub sent_2 : TransferReply
sent_2 = record { rc = success; received = []; sent = 2 }

abbrev pub lights : List ℕ
lights = injection (5 ∷ 6 ∷ [])

abbrev pub timed_out : TransferReply
timed_out = record { rc = failure timeout; received = []; sent = 0 }

abbrev pub mixed : List BridgeEvent
mixed =
    round (received (0 ∷ 0 ∷ [])) []
    ∷ feedback lights sent_2
    ∷ round timed_out []
    ∷ round lost (some attempt ∷ [])
    ∷ feedback (0x90 ∷ []) sent_2
    ∷ round (received (0 ∷ 9 ∷ [])) []
    ∷ []

run_events-run_rounds_example :
    let e = run_events s4_tables app packet_api midi_ports mixed start in
    let r = run_rounds s4_tables app packet_api midi_ports (rounds_of mixed) start in
    (e.messages ≡ r.messages)
    × (e.round_end ≡ r.round_end)
    × ((w : Bool) × (e.bridge ≡ with_warned w r.bridge))
run_events-run_rounds_example =
    run_events-run_rounds s4_tables app packet_api midi_ports mixed start
