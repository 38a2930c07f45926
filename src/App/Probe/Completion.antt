-- ===== src/App/Probe/Completion.antt =====
-- A run of run_probe of src/main.cpp that nothing disturbs: it ends.
use s4_mk1_usb2midi.App.Probe.{
  ◌>>=◌, ◌>>◌, Probe, UsbDevice, AppOptions, probing_run, TransferReply, pause, write_cycles,
  after_listing, done, read_response, write_probe, ProbeReplies, and_then, ListedDevice, on_device,
  write_output, open_usb, ok, finished, outcome_of, say, writing_line, refuse, ProbeEnd,
  write_needs_out_ep, pure, print_descriptors, listing, listing_outcome,
}
use s4_mk1_usb2midi.Common.{
  ℕ, List, ◌≡◌, some, ap, ◌==◌, Bool-cases, false, length, ltb, suc, ◌≤◌, pos_part, true, ◌&&◌,
  Bool, arith, ltb_ℤ, pos, ◌∙◌, inl, ap₂, inr, zero, Option, refl, ◌∷◌, if◌then◌else◌, text, [],
}
use s4_mk1_usb2midi.Usb.{Rc, success, Run, UsbOptions}
use s4_mk1_usb2midi.Usb.Transfers.Effects.{write_output-keeps}
use s4_mk1_usb2midi.Usb.Transfers.Writing.{write_output-view, write_view}
use s4_mk1_usb2midi.Usb.Connection.Options.{open_usb-Keeps}
use s4_mk1_usb2midi.Usb.Descriptors.Silence.{print_descriptors-returns}
use s4_mk1_usb2midi.Usb.Descriptors.GivesBack.{print_descriptors-holds}

-- The parts of a run, put together.
bind-outcome :
    {A B : Type 0} (m : Probe A) (f : A → Probe B) (d : UsbDevice) (a : A)
    → (m d).outcome ≡ done a
    → ((m >>= f) d).outcome ≡ (f a (m d).device).outcome
bind-outcome m f d a h = ap (λ x. (and_then x (m d).events (m d).device f).outcome) h

-- libusb takes the whole payload.
unfoldable pub Accepts : ℕ → TransferReply → Type 0
Accepts n reply = (reply.rc ≡ success) × (reply.sent ≡ n)

write-returns :
    (payload : List ℕ) (reply : TransferReply) (d : UsbDevice) (h : ℕ)
    → d.handle ≡ some h
    → (d.options.output_endpoint == 0) ≡ false
    → Accepts (length payload) reply
    → (on_device (write_output payload reply) d).outcome ≡ done tt
unfolding Accepts
write-returns payload reply d h opened out (rc, sent) =
    let whole : (reply.sent == length payload) ≡ true = ground arith in
    ap (λ (r : Run (Unit {0})). outcome_of r.result) (write_output-view payload reply d)
    ∙ ap
        (λ (x : Option ℕ).
          outcome_of
            (write_view x (d.options.output_endpoint == 0) reply.rc
              (reply.sent == length payload)).0)
        opened
    ∙ ap
        (λ (x : Bool). outcome_of (write_view (some h) x reply.rc (reply.sent == length payload)).0)
        out
    ∙ ap₂ (λ (x : Rc) (y : Bool). outcome_of (write_view (some h) false x y).0) rc whole

module _ (o : AppOptions) where
  pause-ends :
      (index : ℕ) (d : UsbDevice)
      → ((pause o index d).outcome ≡ done tt) × ((pause o index d).device ≡ d)
  unfolding pause
  pause-ends index d =
      elim (Bool-cases
        (ltb (suc index) (pos_part o.write_repeat) && ltb_ℤ (pos 0) o.write_interval_ms)) [
          | inl e ↦ rw (e, pause) (refl, refl)
          | inr e ↦ rw (e, pause) (refl, refl)
        ]

  write_cycles-ends :
      (left index : ℕ) (writes reads : ℕ → TransferReply) (d : UsbDevice) (h : ℕ)
      → o.stream ≡ false
      → d.handle ≡ some h
      → (d.options.output_endpoint == 0) ≡ false
      → ((n : ℕ) → Accepts (length o.write_payload) (writes n))
      → (write_cycles o left index writes reads d).outcome ≡ done tt
  unfolding write_cycles read_response
  write_cycles-ends zero index writes reads d h quiet opened out good = refl
  write_cycles-ends (suc left) index writes reads d h quiet opened out good =
      let first : Probe (Unit {0}) = on_device (write_output o.write_payload (writes index)) in
      let rest : Probe (Unit {0}) = write_cycles o left (suc index) writes reads in
      let tail : Bool → Probe (Unit {0}) =
        λ b. read_response o b (reads index) >> (pause o index >> rest) in
      let same : (first d).device ≡ d = write_output-keeps o.write_payload (writes index) d in
      bind-outcome first (λ _. tail o.stream) d tt
        (write-returns o.write_payload (writes index) d h opened out (good index))
      ∙ ap₂ (λ (b : Bool) (x : UsbDevice). (tail b x).outcome) quiet same
      ∙ bind-outcome (pause o index) (λ _. rest) d tt (pause-ends index d).0
      ∙ ap (λ (x : UsbDevice). (rest x).outcome) (pause-ends index d).1
      ∙ write_cycles-ends left (suc index) writes reads d h quiet opened out good

write_probe-returns :
    (o : AppOptions) (r : ProbeReplies) (d : UsbDevice) (h : ℕ)
    → d.options ≡ o.usb
    → o.stream ≡ false
    → (o.usb.output_endpoint == 0) ≡ false
    → (open_usb r.opening d).result ≡ ok tt
    → (open_usb r.opening d).device.handle ≡ some h
    → ((n : ℕ) → Accepts (length o.write_payload) (r.writes n))
    → (write_probe o r d).outcome ≡ done (finished 0)
unfolding write_probe
write_probe-returns o r d h given quiet out opens opened good =
    let opening : Probe (Unit {0}) = on_device (open_usb r.opening) in
    let header : Probe (Unit {0}) = say (writing_line o) in
    let cycles : Probe (Unit {0}) = write_cycles o (pos_part o.write_repeat) 0 r.writes r.reads in
    let footer : Probe (Unit {0}) = say (text "Write probe complete.") in
    let end : Probe ProbeEnd = pure (finished 0) in
    let d1 = (opening d).device in
    let out1 : (d1.options.output_endpoint == 0) ≡ false =
      ap (λ (x : UsbOptions). x.output_endpoint == 0) (open_usb-Keeps r.opening d ∙ given) ∙ out in
    bind-outcome opening (λ _. header >> (cycles >> (footer >> end))) d tt (ap outcome_of opens)
    ∙ bind-outcome cycles (λ _. footer >> end) d1 tt
        (write_cycles-ends o (pos_part o.write_repeat) 0 r.writes r.reads d1 h quiet opened out1
          good)

-- Without `--stream`, run_probe with a payload and an output endpoint returns the exit code 0 when
-- libusb lists its devices, `open` succeeds and each write is taken whole.
pub probing_run-returns :
    (o : AppOptions) (r : ProbeReplies) (d : UsbDevice) (ds : List ListedDevice) (h : ℕ)
    → d.options ≡ o.usb
    → o.stream ≡ false
    → 1 ≤ length o.write_payload
    → (o.usb.output_endpoint == 0) ≡ false
    → r.listed ≡ some ds
    → (open_usb r.opening d).result ≡ ok tt
    → (open_usb r.opening d).device.handle ≡ some h
    → ((n : ℕ) → Accepts (length o.write_payload) (r.writes n))
    → (probing_run o r d).outcome ≡ done (finished 0)
unfolding probing_run after_listing write_probe
probing_run-returns o r d ds h given quiet some_payload out listed opens opened good =
    let print : Option (List ListedDevice) → Probe (Unit {0}) =
      λ l. listing (print_descriptors l r.active_configs r.first_configs) in
    let rest : Probe ProbeEnd = after_listing o r o.write_payload in
    let (_, returns) = print_descriptors-returns ds r.active_configs r.first_configs d in
    bind-outcome (print r.listed) (λ _. rest) d tt
      (ap (λ l. (print l d).outcome) listed ∙ ap listing_outcome returns)
    ∙ ap (λ (x : UsbDevice). (rest x).outcome)
        (print_descriptors-holds r.listed r.active_configs r.first_configs d).1
    ∙ after o.write_payload some_payload
  where
    after :
        (payload : List ℕ)
        → 1 ≤ length payload
        → (after_listing o r payload d).outcome ≡ done (finished 0)
    after [] k = absurd (omega arith)
    after (b ∷ bs) k =
        ap (λ (x : Bool). ((if x then refuse write_needs_out_ep else write_probe o r) d).outcome)
          out
        ∙ write_probe-returns o r d h given quiet out opens opened good
