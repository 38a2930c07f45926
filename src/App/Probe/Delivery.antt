-- ===== src/App/Probe/Delivery.antt =====
-- A whole run of run_probe of src/main.cpp with `--write-hex`.
use s4_mk1_usb2midi.Usb.Descriptors.{print_descriptors, calls_of}
use s4_mk1_usb2midi.Usb.{transfers, UsbOptions}
use s4_mk1_usb2midi.Common.{
  ◌∙◌, arith, &&_right, ◌≤◌, length, Bool, if◌then◌else◌, append-nil, sym, ℕ, List, Text, ap, map,
  refl, ◌≡◌, true, [], ◌==◌, ◌∷◌, false, replicate, pos_part, text, Option, some, none,
}
use s4_mk1_usb2midi.App.Probe.{
  ◌>>◌, Probe, write_probe, ProbeReplies, OpenReplies, on_device, open_usb, UsbDevice, UsbCall, say,
  AppOptions, ProbeEnd, usb, done, finished, writing_line, write_cycles, pure, ProbeOutcome,
  after_listing, probing_run, streaming, refuse, write_needs_out_ep, listing, PrintStep, event_of,
  shown, call, ListedDevice,
}
use s4_mk1_usb2midi.App.Probe.Cycles.{
  written, Silent, then-done, Silent-then, written-append, write_cycles-written,
}
use s4_mk1_usb2midi.Usb.Descriptors.Silence.{print_descriptors-Mute}
use s4_mk1_usb2midi.Usb.Connection.Silence.{open_usb-Mute}
use s4_mk1_usb2midi.Usb.Connection.Options.{open_usb-Keeps}
use s4_mk1_usb2midi.Usb.Descriptors.GivesBack.{print_descriptors-holds}
use s4_mk1_usb2midi.Usb.Mute.{all_mute, is_mute}

pub mute_written :
    (ep : ℕ) (calls : List UsbCall) → all_mute calls ≡ true → written ep (map usb calls) ≡ []
unfolding written
mute_written ep [] h = refl
mute_written ep (transfers k e b n ∷ cs) h = ground arith
mute_written ep (c ∷ cs) h = mute_written ep cs (&&_right (is_mute c) (all_mute cs) h)

-- A line of the printing writes nothing, and a call of it what it would alone.
steps_written :
    (ep : ℕ) (steps : List PrintStep)
    → all_mute (calls_of steps) ≡ true
    → written ep (map event_of steps) ≡ []
unfolding written calls_of
steps_written ep [] h = refl
steps_written ep (shown t ∷ steps) h = steps_written ep steps h
steps_written ep (call (transfers k e b n) ∷ steps) h = ground arith
steps_written ep (call c ∷ steps) h =
    steps_written ep steps (&&_right (is_mute c) (all_mute (calls_of steps)) h)

listing-Silent :
    (ep : ℕ) (r : ProbeReplies)
    → Silent ep (listing (print_descriptors r.listed r.active_configs r.first_configs))
unfolding print_descriptors written
listing-Silent ep r d apart = (
  quiet r.listed,
  ap (λ (x : UsbDevice). x.options)
      (print_descriptors-holds r.listed r.active_configs r.first_configs d).1,
)
  where
    quiet :
        (l : Option (List ListedDevice))
        → written ep (listing (print_descriptors l r.active_configs r.first_configs) d).events ≡ []
    quiet none = refl
    quiet (some ds) =
        steps_written ep _ (print_descriptors-Mute (some ds) r.active_configs r.first_configs d)

open-Silent : (ep : ℕ) (r : OpenReplies) → Silent ep (on_device (open_usb r))
open-Silent ep r d apart = (mute_written ep _ (open_usb-Mute r d), open_usb-Keeps r d)

say-Silent : (ep : ℕ) (t : Text) → Silent ep (say t)
unfolding written
say-Silent ep t d apart = (refl, refl)

end_of : ProbeOutcome ProbeEnd → ProbeEnd
end_of o = elim o [ done e ↦ e | _ ↦ streaming ]

-- What the part of the mode that writes has written when it returns.
write_probe-written :
    (o : AppOptions) (r : ProbeReplies) (ep : ℕ) (d : UsbDevice) (e : ProbeEnd)
    → d.options.output_endpoint ≡ ep
    → (d.options.input_endpoint == ep) ≡ false
    → (write_probe o r d).outcome ≡ done e
    → (written ep (write_probe o r d).events ≡ replicate (pos_part o.write_repeat) o.write_payload)
      × (e ≡ finished 0)
unfolding write_probe written end_of
write_probe-written o r ep d e out apart h =
    let opening : Probe (Unit {0}) = on_device (open_usb r.opening) in
    let header : Probe (Unit {0}) = say (writing_line o) in
    let cycles : Probe (Unit {0}) = write_cycles o (pos_part o.write_repeat) 0 r.writes r.reads in
    let footer : Probe (Unit {0}) = say (text "Write probe complete.") in
    let end : Probe ProbeEnd = pure (finished 0) in
    let d1 = (opening d).device in
    let same : d1.options ≡ d.options = open_usb-Keeps r.opening d in
    let out1 : d1.options.output_endpoint ≡ ep =
      ap (λ (x : UsbOptions). x.output_endpoint) same ∙ out in
    let apart1 : (d1.options.input_endpoint == ep) ≡ false =
      ap (λ (x : UsbOptions). x.input_endpoint == ep) same ∙ apart in
    let (_, h1, _) = then-done opening (header >> (cycles >> (footer >> end))) d e h in
    let (_, h2, _) = then-done header (cycles >> (footer >> end)) d1 e h1 in
    let (ran, h3, split) = then-done cycles (footer >> end) d1 e h2 in
    (
      Silent-then ep opening (header >> (cycles >> (footer >> end))) d e (open-Silent ep r.opening)
            apart h
          ∙ Silent-then ep header (cycles >> (footer >> end)) d1 e (say-Silent ep (writing_line o))
              apart1 h1
          ∙ ap (written ep) split
          ∙ written-append ep (cycles d1).events ((footer >> end) (cycles d1).device).events
          ∙ append-nil (written ep (cycles d1).events)
          ∙ write_cycles-written o ep (pos_part o.write_repeat) 0 r.writes r.reads d1 out1 apart1
              ran,
      sym (ap end_of h3),
    )

after_listing-written :
    (o : AppOptions) (r : ProbeReplies) (ep : ℕ) (payload : List ℕ) (d : UsbDevice) (e : ProbeEnd)
    → 1 ≤ length payload
    → d.options.output_endpoint ≡ ep
    → (d.options.input_endpoint == ep) ≡ false
    → (after_listing o r payload d).outcome ≡ done e
    → (written ep (after_listing o r payload d).events
        ≡ replicate (pos_part o.write_repeat) o.write_payload)
      × (e ≡ finished 0)
unfolding after_listing
after_listing-written o r ep [] d e some_payload out apart h = absurd (omega arith)
after_listing-written o r ep (b ∷ bs) d e some_payload out apart h =
    at (o.usb.output_endpoint == 0) h
  where
    at :
        (none_given : Bool)
        → ((if none_given then refuse write_needs_out_ep else write_probe o r) d).outcome ≡ done e
        → (written ep ((if none_given then refuse write_needs_out_ep else write_probe o r) d).events
            ≡ replicate (pos_part o.write_repeat) o.write_payload)
          × (e ≡ finished 0)
    at true k = ground arith
    at false k = write_probe-written o r ep d e out apart k

-- When run_probe is given a payload and returns, whatever libusb answered on the way, the
-- transfers on the output endpoint were exactly the payload, as many times as `--write-repeat` says,
-- and the exit code is 0. The device has the options of the command line, and its two endpoints
-- differ.
pub probing_run-written :
    (o : AppOptions) (r : ProbeReplies) (d : UsbDevice) (e : ProbeEnd)
    → d.options ≡ o.usb
    → (o.usb.input_endpoint == o.usb.output_endpoint) ≡ false
    → 1 ≤ length o.write_payload
    → (probing_run o r d).outcome ≡ done e
    → (written o.usb.output_endpoint (probing_run o r d).events
        ≡ replicate (pos_part o.write_repeat) o.write_payload)
      × (e ≡ finished 0)
unfolding probing_run
probing_run-written o r d e given differ some_payload h =
    let ep : ℕ = o.usb.output_endpoint in
    let print : Probe (Unit {0}) =
      listing (print_descriptors r.listed r.active_configs r.first_configs) in
    let rest : Probe ProbeEnd = after_listing o r o.write_payload in
    let d1 = (print d).device in
    let apart : (d.options.input_endpoint == ep) ≡ false =
      ap (λ (x : UsbOptions). x.input_endpoint == ep) given ∙ differ in
    let (quiet, same) = listing-Silent ep r d apart in
    let out1 : d1.options.output_endpoint ≡ ep =
      ap (λ (x : UsbOptions). x.output_endpoint) (same ∙ given) in
    let apart1 : (d1.options.input_endpoint == ep) ≡ false =
      ap (λ (x : UsbOptions). x.input_endpoint == ep) same ∙ apart in
    let (_, h1, _) = then-done print rest d e h in
    let wrote = after_listing-written o r ep o.write_payload d1 e some_payload out1 apart1 h1 in
    (Silent-then ep print rest d e (listing-Silent ep r) apart h ∙ wrote.0, wrote.1)
