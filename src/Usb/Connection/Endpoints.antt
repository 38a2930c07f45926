-- ===== src/Usb/Connection/Endpoints.antt =====
-- `resolve_endpoint_types` against an independent description of the descriptors.
use s4_mk1_usb2midi.Common.{
  true, false, false, ℕ, Bool, not, ◌&&◌, ◌||◌, List, [], ◌∷◌, ◌++◌, ◌==◌, if◌then◌else◌, ◌≡◌, refl,
  arith, eqb_ℤ, pos, Bool-cases, inl, inr, some, ap, ◌∙◌,
}
use s4_mk1_usb2midi.Usb.{
  UsbOptions, EndpointDescriptor, UsbTransferType, AltSetting, UsbDevice, ok, err,
  output_endpoint_missing, input_endpoint_missing, free_config,
}
use s4_mk1_usb2midi.Usb.Connection.{
  scan_endpoints, transfer_type, Found, note_input, note_output, scan_alts, read_endpoints,
  check_found,
}

-- The endpoints of the alternate settings that the options select.
pub selected : UsbOptions → List AltSetting → List EndpointDescriptor
selected o [] = []
selected o (a ∷ as') =
    (if eqb_ℤ (pos a.alternate_setting) o.alternate_setting then a.endpoints else [])
    ++ selected o as'

pub has_address : ℕ → List EndpointDescriptor → Bool
has_address n [] = false
has_address n (e ∷ es) = e.address == n || has_address n es

-- The type of the last endpoint with the address, or `kind` if there is none.
pub last_type : ℕ → UsbTransferType → List EndpointDescriptor → UsbTransferType
last_type n kind [] = kind
last_type n kind (e ∷ es) = last_type n (if e.address == n then transfer_type e else kind) es

scan_endpoints-append :
    (es fs : List EndpointDescriptor) (f : Found)
    → scan_endpoints (es ++ fs) f ≡ scan_endpoints fs (scan_endpoints es f)
unfolding scan_endpoints
scan_endpoints-append [] fs f = refl
scan_endpoints-append (e ∷ es) fs f = scan_endpoints-append es fs (note_output e (note_input e f))

-- What the loops find in a list of endpoints, for given options.
record Finds (o : UsbOptions) (es : List EndpointDescriptor) (f g : Found) : Type 0 where
  options : g.device.options ≡ o
  input : g.input ≡ (f.input || has_address o.input_endpoint es)
  output : g.output ≡ (f.output || not (o.output_endpoint == 0) && has_address o.output_endpoint es)
  input_type :
      g.device.input_transfer_type ≡ last_type o.input_endpoint f.device.input_transfer_type es
  output_type : g.device.output_transfer_type ≡ (
      if o.output_endpoint == 0
      then f.device.output_transfer_type
      else last_type o.output_endpoint f.device.output_transfer_type es)

scan_endpoints-Finds :
    (o : UsbOptions) (es : List EndpointDescriptor) (f : Found)
    → f.device.options ≡ o
    → Finds o es f (scan_endpoints es f)
unfolding scan_endpoints has_address last_type note_input note_output
scan_endpoints-Finds o [] f h = ground arith
scan_endpoints-Finds o (e ∷ es) f h =
    ground (arith, scan_endpoints-Finds o es (note_output e (note_input e f)))

scan_alts-selected :
    (o : UsbOptions) (as' : List AltSetting) (f : Found)
    → f.device.options ≡ o
    → scan_alts as' f ≡ scan_endpoints (selected o as') f
unfolding scan_alts selected
scan_alts-selected o [] f h = unfold scan_endpoints in refl
scan_alts-selected o (a ∷ as') f h =
    elim (Bool-cases (eqb_ℤ (pos a.alternate_setting) o.alternate_setting)) [
      | inl here ↦
          rw (test ∙ here, here, scan_endpoints-append a.endpoints (selected o as') f)
            (scan_alts-selected o as' (scan_endpoints a.endpoints f)
              (scan_endpoints-Finds o a.endpoints f h).options)
      | inr other ↦ rw (test ∙ other, other) (scan_alts-selected o as' f h)
    ]
  where
    test :
        eqb_ℤ (pos a.alternate_setting) f.device.options.alternate_setting
        ≡ eqb_ℤ (pos a.alternate_setting) o.alternate_setting
    test = ap (λ (x : UsbOptions). eqb_ℤ (pos a.alternate_setting) x.alternate_setting) h

check_found_lem :
    (input output : Bool) (d : UsbDevice)
    → check_found input output d ≡ record {
      device = d;
      calls = [];
      result =
          (if input
            then (if output then ok tt else err output_endpoint_missing)
            else err input_endpoint_missing);
    }
unfolding check_found
check_found_lem true true d = refl
check_found_lem true false d = refl
check_found_lem false output d = refl

-- `resolve_endpoint_types` on an interface: it throws exactly when an endpoint that the options name
-- is missing from the selected alternate settings, the input first; in each case the configuration
-- is freed, and the type of each named endpoint is that of the last descriptor with its address.
pub read_endpoints_lem :
    (alts : List AltSetting) (d : UsbDevice)
    → let o = d.options in
      let es = selected o alts in
      let r = read_endpoints (some alts) d in
      (r.result ≡ (
        if has_address o.input_endpoint es
        then (if o.output_endpoint == 0 || has_address o.output_endpoint es
            then ok tt
            else err output_endpoint_missing)
        else err input_endpoint_missing))
      × (r.calls ≡ free_config ∷ [])
      × (r.device.input_transfer_type ≡ last_type o.input_endpoint d.input_transfer_type es)
      × (r.device.output_transfer_type ≡ (
          if o.output_endpoint == 0
          then d.output_transfer_type
          else last_type o.output_endpoint d.output_transfer_type es))
unfolding read_endpoints
read_endpoints_lem alts d =
    let start : Found = record {
      device = d;
      input = false;
      output = d.options.output_endpoint == 0;
    } in
    let found : Found = scan_endpoints (selected d.options alts) start in
    let facts : Finds d.options (selected d.options alts) start found =
      scan_endpoints-Finds d.options (selected d.options alts) start refl in
    rw
      (
        scan_alts-selected d.options alts start refl,
        check_found_lem found.input found.output found.device,
      )
      (ground arith)
