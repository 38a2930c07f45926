-- ===== src/Cli/Arguments.antt =====
-- parse_args of src/main.cpp and the options that it fills.
pub mod Ranges
pub mod Order
pub mod Tests
use s4_mk1_usb2midi.Common.{
  ℕ, zero, suc, ◌+◌, ◌-◌, ◌%◌, ◌^◌, Bool, true, false, ◌&&◌, ◌||◌, not, List, [], ◌∷◌, ℤ, pos,
  negsuc, ltb_ℤ, leb_ℤ, ◌==◌, if◌then◌else◌, u8, pos_part, Option, none, some,
}
use s4_mk1_usb2midi.Cli.{
  is_text, Parsed, parsed, rejected, ParseError, then_parse, parse_u16, parse_u8, parse_i32,
  parse_hex_bytes, parse_decode_mode, UsbOptions, byte, bad_repeat, bad_interval, bad_channel,
  bad_deadzone, String, unknown_flag, ids_required, unknown_mode, missing_mode, InputDecodeMode,
  missing_value, bridge_needs_input, Text,
}

pub data Mode : Type 0 where
  probe bridge : Mode

pub record AppOptions : Type 0 where
  pub mode : Mode
  pub stream : Bool
  pub raw_sysex : Bool
  pub usb : UsbOptions
  pub midi_base_channel : ℕ
  pub input_deadzone : ℕ
  pub input_decode_mode : InputDecodeMode
  pub input_debug : Bool
  pub input_debug_buttons_only : Bool
  pub write_payload : List ℕ
  pub write_repeat : ℤ
  pub write_interval_ms : ℤ

pub default_usb_options : UsbOptions
default_usb_options = record {
  vendor_id = 0;
  product_id = 0;
  interface_number = pos 0;
  alternate_setting = pos 0;
  input_endpoint = 0;
  output_endpoint = 0;
  report_size = pos 0;
  timeout_ms = 50;
}

pub default_options : Mode → AppOptions
unfolding default_usb_options
default_options mode = record {
  mode = mode;
  stream = false;
  raw_sysex = false;
  usb = default_usb_options;
  midi_base_channel = 0;
  input_deadzone = 0;
  input_decode_mode = byte;
  input_debug = false;
  input_debug_buttons_only = false;
  write_payload = [];
  write_repeat = pos 1;
  write_interval_ms = pos 50;
}

-- `static_cast<unsigned int>` of an `int`.
unsigned_int : ℤ → ℕ
unsigned_int (pos n) = n % 2 ^ 32
unsigned_int (negsuc n) = (2 ^ 32 - suc n) % 2 ^ 32

-- A flag that stands alone, or one that reads the argument after it.
pub data Action : Type 0 where
  switch : (AppOptions → AppOptions) → Action
  valued : (Text → AppOptions → Parsed AppOptions) → Action

set_usb : (ℕ → UsbOptions → UsbOptions) → (Text → Parsed ℕ) → Text → AppOptions → Parsed AppOptions
set_usb set parse v o = then_parse (parse v) λ n. parsed (record o { usb = set n o.usb })

set_usb_int : (ℤ → UsbOptions → UsbOptions) → Text → AppOptions → Parsed AppOptions
set_usb_int set v o = then_parse (parse_i32 v) λ n. parsed (record o { usb = set n o.usb })

set_write_hex : Text → AppOptions → Parsed AppOptions
set_write_hex v o = then_parse (parse_hex_bytes v) λ bs. parsed (record o { write_payload = bs })

-- `value <= 0`, `value < 0` and the two ranges are tests on `int`.
set_write_repeat : Text → AppOptions → Parsed AppOptions
set_write_repeat v o =
    then_parse (parse_i32 v)
      λ n. if leb_ℤ n (pos 0) then rejected bad_repeat else parsed (record o { write_repeat = n })

set_write_interval : Text → AppOptions → Parsed AppOptions
set_write_interval v o = then_parse (parse_i32 v) λ n.
    if ltb_ℤ n (pos 0) then rejected bad_interval else parsed (record o { write_interval_ms = n })

set_midi_channel : Text → AppOptions → Parsed AppOptions
set_midi_channel v o = then_parse (parse_i32 v) λ n.
    if ltb_ℤ n (pos 1) || ltb_ℤ (pos 16) n
    then rejected bad_channel
    else parsed (record o { midi_base_channel = u8 (pos_part n - 1) })

set_deadzone : Text → AppOptions → Parsed AppOptions
set_deadzone v o = then_parse (parse_i32 v) λ n.
    if ltb_ℤ n (pos 0) || ltb_ℤ (pos 127) n
    then rejected bad_deadzone
    else parsed (record o { input_deadzone = u8 (pos_part n) })

set_decode : Text → AppOptions → Parsed AppOptions
set_decode v o = then_parse (parse_decode_mode v) λ m. parsed (record o { input_decode_mode = m })

-- The tests on the flag, in the order of the source.
pub flags : List (String × Action)
unfolding set_usb set_usb_int set_write_hex set_write_repeat set_write_interval set_midi_channel
    set_deadzone set_decode unsigned_int
flags =
    ("--vid", valued (set_usb (λ n u. record u { vendor_id = n }) parse_u16))
    ∷ ("--pid", valued (set_usb (λ n u. record u { product_id = n }) parse_u16))
    ∷ ("--interface", valued (set_usb_int (λ n u. record u { interface_number = n })))
    ∷ ("--alt-setting", valued (set_usb_int (λ n u. record u { alternate_setting = n })))
    ∷ ("--in-ep", valued (set_usb (λ n u. record u { input_endpoint = n }) parse_u8))
    ∷ ("--out-ep", valued (set_usb (λ n u. record u { output_endpoint = n }) parse_u8))
    ∷ ("--report-size", valued (set_usb_int (λ n u. record u { report_size = n })))
    ∷ ("--timeout-ms", valued (set_usb_int (λ n u. record u { timeout_ms = unsigned_int n })))
    ∷ ("--stream", switch (λ o. record o { stream = true }))
    ∷ ("--write-hex", valued set_write_hex)
    ∷ ("--write-repeat", valued set_write_repeat)
    ∷ ("--write-interval-ms", valued set_write_interval)
    ∷ ("--midi-channel", valued set_midi_channel)
    ∷ ("--input-deadzone", valued set_deadzone)
    ∷ ("--input-decode", valued set_decode)
    ∷ ("--input-debug", switch (λ o. record o { input_debug = true }))
    ∷ (
      "--input-debug-buttons",
      switch (λ o. record o { input_debug = true; input_debug_buttons_only = true }),
    )
    ∷ ("--raw-sysex", switch (λ o. record o { raw_sysex = true }))
    ∷ []

pub find_action : List (String × Action) → Text → Option Action
find_action [] flag = none
find_action ((name, action) ∷ rest) flag =
    if is_text flag name then some action else find_action rest flag

-- The loop over the arguments after the mode.
pub parse_flags : AppOptions → List Text → Parsed AppOptions
parse_flags o [] = parsed o
parse_flags o (flag ∷ []) = elim (find_action flags flag) [
  | none ↦ rejected unknown_flag
  | some (switch set) ↦ parsed (set o)
  | some (valued set) ↦ rejected missing_value
]
parse_flags o (flag ∷ value ∷ rest) = elim (find_action flags flag) [
  | none ↦ rejected unknown_flag
  | some (switch set) ↦ parse_flags (set o) (value ∷ rest)
  | some (valued set) ↦ then_parse (set value o) λ o'. parse_flags o' rest
]

check_mode : Mode → UsbOptions → AppOptions → Parsed AppOptions
check_mode probe usb o = parsed o
check_mode bridge usb o =
    if usb.input_endpoint == 0 || leb_ℤ usb.report_size (pos 0)
    then rejected bridge_needs_input
    else parsed o

pub check_options : AppOptions → Parsed AppOptions
unfolding check_mode
check_options o =
    if o.usb.vendor_id == 0 || o.usb.product_id == 0
    then rejected ids_required
    else check_mode o.mode o.usb o

parse_mode : Text → Parsed Mode
parse_mode text =
    if is_text text "probe"
    then parsed probe
    else (if is_text text "bridge" then parsed bridge else rejected unknown_mode)

-- The first argument is the name of the program.
pub parse_args : List Text → Parsed AppOptions
unfolding parse_mode default_options
parse_args [] = rejected missing_mode
parse_args (program ∷ []) = rejected missing_mode
parse_args (program ∷ mode ∷ rest) =
    then_parse (parse_mode mode)
      λ m. then_parse (parse_flags (default_options m) rest) check_options
