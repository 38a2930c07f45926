-- ===== src/App/Probe/Cycles.antt =====
-- What run_probe of src/main.cpp writes to the device.
use s4_mk1_usb2midi.App.Probe.{
  ◌>>◌, write_cycles, Event, Probe, ProbeOutcome, echo, AppOptions, UsbDevice, ◌>>=◌, TransferReply,
  read_response, pause, and_then, on_device, usb, read_input, done, threw, line, sleep,
  undefined_read, write_output, outcome_of,
}
use s4_mk1_usb2midi.Common.{
  ℕ, List, Text, ◌∷◌, ◌++◌, ◌==◌, ap, Bool, Bool-cases, ◌≡◌, ltb, false, ◌∙◌, text, suc, inl, [],
  pos_part, if◌then◌else◌, inr, arith, ap₂, map, ◌&&◌, refl, ltb_ℤ, pos, true, Option, some, sym,
  none, replicate, zero,
}
use s4_mk1_usb2midi.Usb.{UsbOptions, transfers, Rc, failure, Run, success}
use s4_mk1_usb2midi.Usb.Transfers.Effects.{read_input-calls, read_input-Steady, write_output-keeps}
use s4_mk1_usb2midi.Usb.Transfers.Writing.{write_view, write_output-view}

-- The payloads of the transfers to an endpoint.
unfoldable pub written : ℕ → List Event → List (List ℕ)
written ep [] = []
written ep (usb (transfers kind e bytes ms) ∷ events) =
    let rest = written ep events in if e == ep then bytes ∷ rest else rest
written ep (usb call ∷ events) = written ep events
written ep (line t ∷ events) = written ep events
written ep (sleep ms ∷ events) = written ep events

pub written-append :
    (ep : ℕ) (xs ys : List Event) → written ep (xs ++ ys) ≡ written ep xs ++ written ep ys
unfolding written
written-append ep [] ys = refl
written-append ep (usb (transfers kind e bytes ms) ∷ xs) ys = elim (Bool-cases (e == ep)) [
  | inl h ↦ rw (h, written) (ap (◌∷◌ bytes) (written-append ep xs ys))
  | inr h ↦ rw (h, written) (written-append ep xs ys)
]
written-append ep (usb call ∷ xs) ys = written-append ep xs ys
written-append ep (line t ∷ xs) ys = written-append ep xs ys
written-append ep (sleep ms ∷ xs) ys = written-append ep xs ys

-- A run that gives a result has one of its first part, and one of the rest from there.
pub and_then-done :
    {A B : Type 0} (x : ProbeOutcome A) (events : List Event) (d : UsbDevice) (f : A → Probe B)
    (b : B)
    → (and_then x events d f).outcome ≡ done b
    → (a : A) × (x ≡ done a)
      × ((f a d).outcome ≡ done b)
      × ((and_then x events d f).events ≡ events ++ (f a d).events)
and_then-done (done a) events d f b h = (a, refl, h, refl)
and_then-done (threw e) events d f b h = ground arith
and_then-done undefined_read events d f b h = ground arith

-- A part that writes nothing to the endpoint, and keeps the options.
abbrev pub Silent : {A : Type 0} → ℕ → Probe A → Type 0
Silent ep m =
    (d : UsbDevice)
    → (d.options.input_endpoint == ep) ≡ false
    → (written ep (m d).events ≡ []) × ((m d).device.options ≡ d.options)

and_then-Silent :
    {A B : Type 0} (ep : ℕ) (x : ProbeOutcome A) (events : List Event) (d : UsbDevice)
    (f : A → Probe B)
    → (d.options.input_endpoint == ep) ≡ false
    → written ep events ≡ []
    → ((a : A) → Silent ep (f a))
    → (written ep (and_then x events d f).events ≡ [])
      × ((and_then x events d f).device.options ≡ d.options)
unfolding written
and_then-Silent ep (done a) events d f apart h k =
    (written-append ep events (f a d).events ∙ ap₂ (◌++◌) h (k a d apart).0, (k a d apart).1)
and_then-Silent ep (threw e) events d f apart h k = (h, refl)
and_then-Silent ep undefined_read events d f apart h k = (h, refl)

pub bind-Silent :
    {A B : Type 0} (ep : ℕ) (m : Probe A) (f : A → Probe B)
    → Silent ep m
    → ((a : A) → Silent ep (f a))
    → Silent ep (m >>= f)
bind-Silent ep m f h k d apart =
    let (quiet, kept) = h d apart in
    let after =
      and_then-Silent ep (m d).outcome (m d).events (m d).device f
        (ap (λ (o : UsbOptions). o.input_endpoint == ep) kept ∙ apart) quiet k in
    (after.0, after.1 ∙ kept)

echo-Silent : (ep : ℕ) (label : Text) (packet : List ℕ) → Silent ep (echo label packet)
unfolding echo written
echo-Silent ep label [] d apart = (refl, refl)
echo-Silent ep label (b ∷ bs) d apart = (refl, refl)

read-Silent : (ep : ℕ) (reply : TransferReply) → Silent ep (on_device (read_input reply))
unfolding written
read-Silent ep reply d apart = (
  elim (read_input-calls reply d) [
    | inl no_call ↦ ap (λ calls. written ep (map usb calls)) no_call
    | inr one ↦ ap (λ calls. written ep (map usb calls)) one ∙ rw (apart, written) refl
  ],
  (read_input-Steady reply d).0,
)

pub then-done :
    {B : Type 0} (m : Probe (Unit {0})) (k : Probe B) (d : UsbDevice) (b : B)
    → ((m >> k) d).outcome ≡ done b
    → ((m d).outcome ≡ done tt)
      × ((k (m d).device).outcome ≡ done b)
      × (((m >> k) d).events ≡ (m d).events ++ (k (m d).device).events)
then-done m k d b h =
    let (u, e, f, g) = and_then-done (m d).outcome (m d).events (m d).device (λ _. k) b h in
    (e, f, g)

-- A silent part in front adds nothing to what is written.
pub Silent-then :
    {B : Type 0} (ep : ℕ) (m : Probe (Unit {0})) (k : Probe B) (d : UsbDevice) (b : B)
    → Silent ep m
    → (d.options.input_endpoint == ep) ≡ false
    → ((m >> k) d).outcome ≡ done b
    → written ep ((m >> k) d).events ≡ written ep (k (m d).device).events
Silent-then ep m k d b quiet apart h =
    let (e, f, g) = then-done m k d b h in
    ap (written ep) g
    ∙ written-append ep (m d).events (k (m d).device).events
    ∙ ap (λ xs. xs ++ written ep (k (m d).device).events) (quiet d apart).0

module _ (o : AppOptions) where
  read_response-Silent :
      (ep : ℕ) (b : Bool) (reply : TransferReply) → Silent ep (read_response o b reply)
  unfolding read_response written
  read_response-Silent ep false reply d apart = (refl, refl)
  read_response-Silent ep true reply d apart =
      bind-Silent ep (on_device (read_input reply)) (echo (text "RX ")) (read-Silent ep reply)
        (echo-Silent ep (text "RX ")) d apart

  pause-Silent : (ep index : ℕ) → Silent ep (pause o index)
  unfolding pause written
  pause-Silent ep index d apart =
      elim (Bool-cases
        (ltb (suc index) (pos_part o.write_repeat) && ltb_ℤ (pos 0) o.write_interval_ms)) [
          | inl e ↦ rw (e, pause) (refl, refl)
          | inr e ↦ rw (e, pause) (refl, refl)
        ]

  -- A write that returns has made its one transfer.
  write-done :
      (reply : TransferReply) (d : UsbDevice)
      → (on_device (write_output o.write_payload reply) d).outcome ≡ done tt
      → written d.options.output_endpoint (on_device (write_output o.write_payload reply) d).events
        ≡ o.write_payload ∷ []
  unfolding written
  write-done reply d h =
      let here : (d.options.output_endpoint == d.options.output_endpoint) ≡ true = ground arith in
      let view = write_output-view o.write_payload reply d in
      ap (λ (r : Run (Unit {0})). written d.options.output_endpoint (map usb r.calls)) view
      ∙ rw
          (sent d.handle _ reply.rc _ (sym (ap (λ r. outcome_of r.result) view) ∙ h), written, here)
          refl
    where
      sent :
          (handle : Option ℕ) (b : Bool) (rc : Rc) (c : Bool)
          → outcome_of (write_view handle b rc c).0 ≡ done tt
          → (write_view handle b rc c).1 ≡ true
      sent none b rc c h = ground arith
      sent (some h) true rc c e = ground arith
      sent (some h) false (failure x) c e = refl
      sent (some h) false success true e = refl
      sent (some h) false success false e = refl

  pub write_cycles-written :
      (ep left index : ℕ) (writes reads : ℕ → TransferReply) (d : UsbDevice)
      → d.options.output_endpoint ≡ ep
      → (d.options.input_endpoint == ep) ≡ false
      → (write_cycles o left index writes reads d).outcome ≡ done tt
      → written ep (write_cycles o left index writes reads d).events
        ≡ replicate left o.write_payload
  unfolding write_cycles written
  write_cycles-written ep zero index writes reads d out apart h = refl
  write_cycles-written ep (suc left) index writes reads d out apart h =
      let first : Probe (Unit {0}) = on_device (write_output o.write_payload (writes index)) in
      let second : Probe (Unit {0}) = read_response o o.stream (reads index) in
      let third : Probe (Unit {0}) = pause o index in
      let rest : Probe (Unit {0}) = write_cycles o left (suc index) writes reads in
      let (wrote, h1, split) = then-done first (second >> (third >> rest)) d tt h in
      let d1 = (first d).device in
      let same : d1 ≡ d = write_output-keeps o.write_payload (writes index) d in
      let apart1 : (d1.options.input_endpoint == ep) ≡ false =
        ap (λ (x : UsbDevice). x.options.input_endpoint == ep) same ∙ apart in
      let d2 = (second d1).device in
      let (read, h2, _) = then-done second (third >> rest) d1 tt h1 in
      let options2 : d2.options ≡ d1.options =
        (read_response-Silent ep o.stream (reads index) d1 apart1).1 in
      let apart2 : (d2.options.input_endpoint == ep) ≡ false =
        ap (λ (x : UsbOptions). x.input_endpoint == ep) options2 ∙ apart1 in
      let d3 = (third d2).device in
      let (paused, h3, _) = then-done third rest d2 tt h2 in
      let options3 : d3.options ≡ d.options =
        (pause-Silent ep index d2 apart2).1 ∙ options2 ∙ ap (λ (x : UsbDevice). x.options) same in
      ap (written ep) split
      ∙ written-append ep (first d).events ((second >> (third >> rest)) d1).events
      ∙ ap₂ (◌++◌)
          (sym (ap (λ (e : ℕ). written e (first d).events) out) ∙ write-done (writes index) d wrote)
          (Silent-then ep second (third >> rest) d1 tt
              (read_response-Silent ep o.stream (reads index)) apart1 h1
            ∙ Silent-then ep third rest d2 tt (pause-Silent ep index) apart2 h2
            ∙ write_cycles-written ep left (suc index) writes reads d3
                (ap (λ (x : UsbOptions). x.output_endpoint) options3 ∙ out)
                (ap (λ (x : UsbOptions). x.input_endpoint == ep) options3 ∙ apart) h3)
