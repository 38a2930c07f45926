-- ===== src/Usb/Transfers/Tests.antt =====
-- The theorems on single transfers at concrete inputs.
use s4_mk1_usb2midi.Common.{true, [], ◌∷◌, ◌≡◌, refl, arith, replicate}
use s4_mk1_usb2midi.Usb.Connection.Tests.{opened}
use s4_mk1_usb2midi.Usb.Transfers.{read_input, failure, io, transfers, bulk, ok}
use s4_mk1_usb2midi.Usb.Transfers.Reading.{read_input-view}

read_input-view_example :
    read_input (record { rc = failure io; received = []; sent = 0 }) opened ≡ record {
      device = record opened { disconnected = true };
      calls = transfers bulk 0x84 (replicate 4 0) 50 ∷ [];
      result = ok [];
    }
read_input-view_example =
    read_input-view (record { rc = failure io; received = []; sent = 0 }) opened 7 3 refl refl
      (omega arith)
