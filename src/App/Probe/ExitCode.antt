-- ===== src/App/Probe/ExitCode.antt =====
-- The exit code of run_probe of src/main.cpp.
use s4_mk1_usb2midi.Common.{
  refl, ℕ, List, ◌≡◌, Option, Bool, sym, if◌then◌else◌, ◌∷◌, not, ap, some, ◌∙◌, ◌==◌, pos_part, [],
  text, none, true, false,
}
use s4_mk1_usb2midi.App.Probe.{
  ◌>>=◌, ◌>>◌, Probe, ProbeOutcome, ProbeEnd, pure, stream_packets, write_probe, ProbeError,
  stream_probe, after_listing, probing_run, AppOptions, UsbDevice, finished, ProbeReplies, refuse,
  done, Event, on_device, and_then, TransferReply, open_usb, print_descriptors, threw, say,
  writing_line, write_needs_out_ep, undefined_read, read_input, write_cycles, echo, listing,
}

code_of : ProbeOutcome ProbeEnd → ℕ
code_of (done (finished n)) = n
code_of other = 0

-- Where it returns, it returns 0.
record Zero (m : Probe ProbeEnd) : Type 0 where
  zero_at : (d : UsbDevice) → code_of (m d).outcome ≡ 0

and_then-Zero :
    {A : Type 0} (x : ProbeOutcome A) (events : List Event) (d : UsbDevice) (f : A → Probe ProbeEnd)
    → ((a : A) → Zero (f a))
    → code_of (and_then x events d f).outcome ≡ 0
unfolding code_of
and_then-Zero (done a) events d f k = (k a).zero_at d
and_then-Zero (threw e) events d f k = refl
and_then-Zero undefined_read events d f k = refl

bind-Zero :
    {A : Type 0} (m : Probe A) {f : A → Probe ProbeEnd} → ((a : A) → Zero (f a)) → Zero (m >>= f)
bind-Zero m {f = f} k = record {
  zero_at = λ d. and_then-Zero (m d).outcome (m d).events (m d).device f k;
}

then-Zero : (m : Probe (Unit {0})) {k : Probe ProbeEnd} → Zero k → Zero (m >> k)
then-Zero m {k = k} h = bind-Zero m {f = λ _. k} (λ _. h)

pure-Zero : Zero (pure (finished 0))
unfolding code_of
pure-Zero = record { zero_at = λ d. refl }

stream_packets-Zero : (replies : List (Option TransferReply)) → Zero (stream_packets replies)
unfolding stream_packets code_of
stream_packets-Zero [] = record { zero_at = λ d. refl }
stream_packets-Zero (none ∷ replies) = pure-Zero
stream_packets-Zero (some reply ∷ replies) =
    bind-Zero (on_device (read_input reply))
      {f = λ packet. echo [] packet >> stream_packets replies}
      λ packet. then-Zero (echo [] packet) (stream_packets-Zero replies)

write_probe-Zero : (o : AppOptions) (r : ProbeReplies) → Zero (write_probe o r)
unfolding write_probe
write_probe-Zero o r = then-Zero (on_device (open_usb r.opening)) (
    then-Zero (say (writing_line o)) (
      then-Zero (write_cycles o (pos_part o.write_repeat) 0 r.writes r.reads)
        (then-Zero (say (text "Write probe complete.")) pure-Zero)))

refuse-Zero : (e : ProbeError) → Zero (refuse e)
unfolding code_of
refuse-Zero e = record { zero_at = λ d. refl }

stream_probe-Zero : (r : ProbeReplies) → Zero (stream_probe r)
unfolding stream_probe
stream_probe-Zero r = then-Zero (on_device (open_usb r.opening)) (stream_packets-Zero r.packets)

after_listing-Zero : (o : AppOptions) (r : ProbeReplies) (bs : List ℕ) → Zero (after_listing o r bs)
unfolding after_listing
after_listing-Zero o r [] = at o.stream
  where
    at : (b : Bool) → Zero (if not b then pure (finished 0) else stream_probe r)
    at true = stream_probe-Zero r
    at false = pure-Zero
after_listing-Zero o r (b ∷ bs) = at (o.usb.output_endpoint == 0)
  where
    at : (c : Bool) → Zero (if c then refuse write_needs_out_ep else write_probe o r)
    at true = refuse-Zero write_needs_out_ep
    at false = write_probe-Zero o r

probing_run-Zero : (o : AppOptions) (r : ProbeReplies) → Zero (probing_run o r)
unfolding probing_run
probing_run-Zero o r =
    then-Zero (listing (print_descriptors r.listed r.active_configs r.first_configs))
      (after_listing-Zero o r o.write_payload)

pub probing_run-code :
    (o : AppOptions) (r : ProbeReplies) (d : UsbDevice) (n : ℕ)
    → (probing_run o r d).outcome ≡ done (finished n)
    → n ≡ 0
unfolding code_of
probing_run-code o r d n h = sym (ap code_of h) ∙ (probing_run-Zero o r).zero_at d
