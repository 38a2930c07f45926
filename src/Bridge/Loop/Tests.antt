-- ===== src/Bridge/Loop/Tests.antt =====
-- Runs of the main loop: two packets, and a reconnection.
use s4_mk1_usb2midi.Common.{
  cons, nil, ◌≡◌, refl, ◌∷◌, [], some, none, true, false, ℕ, List, length, leb, ◌+◌, ap, pos, arith,
  replicate,
}
use s4_mk1_usb2midi.Bridge.Loop.{
  connected, connect, Bridge, Option, Attempt, goes_on, UsbDevice, read_input, bridge_round,
  try_once, succeeded,
}
use s4_mk1_usb2midi.Usb.{success, failure, io, ok, transfers, bulk}
use s4_mk1_usb2midi.Init.Sequence.Tests.{all_well, off, init_returns}
use s4_mk1_usb2midi.Usb.Connection.{close}
use s4_mk1_usb2midi.Usb.Connection.Tests.{replies as open_replies, s4, open_runs, opened, options}
use s4_mk1_usb2midi.Protocol.{byte, new_protocol, s4_tables}
use s4_mk1_usb2midi.Midi.{PacketApi, CoreMidiBridge}
use s4_mk1_usb2midi.Cli.Arguments.{AppOptions, bridge}
use s4_mk1_usb2midi.Bridge.Loop.Reconnection.{
  bridge_round-goes_on, bridge_round-reconnects, try_once-succeeds,
}
use s4_mk1_usb2midi.Usb.Transfers.{TransferReply}
use s4_mk1_usb2midi.Bridge.Loop.Reads.{Reads, reads, no_reads}
use s4_mk1_usb2midi.Usb.Transfers.Reading.{read_input-view}
use s4_mk1_usb2midi.Bridge.Loop.Waiting.{IsAway, connect-waits}
use s4_mk1_usb2midi.Usb.Connection.Opening.{matching}

abbrev pub packet_api : PacketApi
packet_api = record {
  packet_offset = 4;
  data_offset = 10;
  list_add = λ size bytes. leb (14 + length bytes) size;
  received = λ source bytes. true;
}

abbrev pub midi_ports : CoreMidiBridge
midi_ports = record { client = 1; source = 2; destination = 3 }

abbrev pub app : AppOptions
app = record {
  mode = bridge;
  stream = false;
  raw_sysex = false;
  usb = options;
  midi_base_channel = 0;
  input_deadzone = 0;
  input_decode_mode = byte;
  input_debug = true;
  input_debug_buttons_only = false;
  write_payload = [];
  write_repeat = pos 1;
  write_interval_ms = pos 50;
}

abbrev pub start : Bridge
start = record {
  protocol = new_protocol 0 0 byte;
  device = opened;
  drain = record { t = none; active = false };
  previous_debug_packet = [];
  previous_raw_sysex_packet = [];
}

abbrev pub received : List ℕ → TransferReply
received bytes = record { rc = success; received = bytes; sent = 0 }

abbrev pub two_rounds : List (TransferReply × List (Option Attempt))
two_rounds = (received (0 ∷ 0 ∷ []), []) ∷ (received (0 ∷ 9 ∷ []), []) ∷ []

pub two_reads : Reads opened off two_rounds ((0 ∷ 0 ∷ []) ∷ (0 ∷ 9 ∷ []) ∷ [])
two_reads =
    let first = read_input-view (received (0 ∷ 0 ∷ [])) opened 7 3 refl refl (omega arith) in
    let second = read_input-view (received (0 ∷ 9 ∷ [])) opened 7 3 refl refl (omega arith) in
    reads (ap (λ r. r.device) first) (ap (λ r. r.result) first)
      (reads (ap (λ r. r.device) second) (ap (λ r. r.result) second) no_reads)

abbrev pub packets : List (List ℕ)
packets = (0 ∷ 0 ∷ []) ∷ (0 ∷ 9 ∷ []) ∷ []

-- A read that fails with an I/O error, and an attempt that succeeds.
abbrev pub lost : TransferReply
lost = record { rc = failure io; received = []; sent = 0 }

abbrev pub attempt : Attempt
attempt = record { open_replies = open_replies (s4 ∷ []); init_replies = λ n. all_well }

abbrev lost_device : UsbDevice
lost_device = record opened { disconnected = true }

lost_read : read_input lost opened ≡ record {
  device = lost_device;
  calls = transfers bulk 0x84 (replicate 4 0) 50 ∷ [];
  result = ok [];
}
lost_read = read_input-view lost opened 7 3 refl refl (omega arith)

attempt_succeeds : (try_once attempt lost_device off).tried ≡ succeeded
unfolding close
attempt_succeeds =
    try_once-succeeds attempt lost_device off refl (ap (λ r. r.result) open_runs) init_returns

pub goes_on_again :
    (bridge_round s4_tables app packet_api midi_ports lost (some attempt ∷ []) start).round_end
    ≡ goes_on
goes_on_again =
    bridge_round-goes_on s4_tables app packet_api midi_ports start lost attempt [] [] lost_device
      (ap (λ r. r.device) lost_read) (ap (λ r. r.result) lost_read) refl attempt_succeeds

bridge_round-reconnects_example :
    let r = bridge_round s4_tables app packet_api midi_ports lost (some attempt ∷ []) start in
    (r.bridge.protocol ≡ start.protocol)
    × (r.bridge.previous_raw_sysex_packet ≡ [])
    × (r.bridge.previous_debug_packet ≡ [])
bridge_round-reconnects_example =
    bridge_round-reconnects s4_tables app packet_api midi_ports start lost (some attempt ∷ []) []
      (ap (λ r. r.device.disconnected) lost_read) (ap (λ r. r.result) lost_read) goes_on_again

-- The device is away for one attempt.
abbrev pub away_attempt : Attempt
away_attempt = record { open_replies = open_replies []; init_replies = λ n. all_well }

connect-waits_example :
    (connect (some away_attempt ∷ some attempt ∷ []) lost_device off).outcome ≡ connected
unfolding IsAway matching close
connect-waits_example =
    connect-waits (away_attempt ∷ []) attempt [] lost_device off (cons ([], refl, refl) nil)
      (ap (λ r. r.result) open_runs) init_returns
