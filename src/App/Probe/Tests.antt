-- ===== src/App/Probe/Tests.antt =====
-- A run of run_probe that writes two bytes twice.
use s4_mk1_usb2midi.Common.{refl, ◌∷◌, [], arith, some, none, ◌≡◌, ap}
use s4_mk1_usb2midi.Cli.Arguments.Tests.{write_options}
use s4_mk1_usb2midi.Usb.Connection.Tests.{closed, open_runs, s4, replies as open_replies}
use s4_mk1_usb2midi.Usb.Transfers.{TransferReply}
use s4_mk1_usb2midi.App.Probe.{ProbeReplies, probing_run, done, finished}
use s4_mk1_usb2midi.App.Probe.Completion.{Accepts, probing_run-returns}
use s4_mk1_usb2midi.Usb.{success}

abbrev pub accepted : TransferReply
accepted = record { rc = success; received = []; sent = 2 }

abbrev pub answers : ProbeReplies
answers = record {
  listed = some (s4 ∷ []);
  active_configs = λ ref. none;
  first_configs = λ ref. none;
  opening = open_replies (s4 ∷ []);
  writes = λ n. accepted;
  reads = λ n. accepted;
  packets = [];
}

probing_run-returns_example : (probing_run write_options answers closed).outcome ≡ done (finished 0)
unfolding Accepts
probing_run-returns_example =
    probing_run-returns write_options answers closed (s4 ∷ []) 7 refl refl (omega arith) refl refl
      (ap (λ r. r.result) open_runs) (ap (λ r. r.device.handle) open_runs) (λ n. (refl, refl))
