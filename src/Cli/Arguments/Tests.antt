-- ===== src/Cli/Arguments/Tests.antt =====
-- Runs of parse_args.
use s4_mk1_usb2midi.Common.{◌≡◌, refl, ◌∷◌, [], List, ℕ, ◌++◌, text}
use s4_mk1_usb2midi.Cli.{
  Bool, pos, true, false, is_text, byte, parse_u16, parse_i32, stoul, rejected, parsed, bad_channel,
  missing_value, bridge_needs_input, Text, parse_hex_bytes, hex_bytes, parse_u8,
}
use s4_mk1_usb2midi.Usb.{UsbOptions}
use s4_mk1_usb2midi.Usb.Connection.Tests.{options}
use s4_mk1_usb2midi.Cli.Arguments.{
  parse_args, parse_flags, find_action, AppOptions, flags, probe, default_options,
  default_usb_options, check_options,
}
use s4_mk1_usb2midi.Cli.Arguments.Ranges.{IsRunnable, parse_args-IsRunnable}

abbrev one_id : List Text
one_id = text "--vid" ∷ text "0x17cc" ∷ []

abbrev other_flags : List Text
other_flags = text "--stream" ∷ text "--pid" ∷ text "0xbaff" ∷ text "--vid" ∷ text "1" ∷ []

abbrev probe_command : List Text
probe_command = text "s4_mk1_usb2midi" ∷ text "probe" ∷ (one_id ++ other_flags)

abbrev options_of : UsbOptions → Bool → AppOptions
options_of usb stream = record {
  mode = probe;
  stream = stream;
  raw_sysex = false;
  usb = usb;
  midi_base_channel = 0;
  input_deadzone = 0;
  input_decode_mode = byte;
  input_debug = false;
  input_debug_buttons_only = false;
  write_payload = [];
  write_repeat = pos 1;
  write_interval_ms = pos 50;
}

abbrev usb_of : ℕ → ℕ → UsbOptions
usb_of vid pid = record {
  vendor_id = vid;
  product_id = pid;
  interface_number = pos 0;
  alternate_setting = pos 0;
  input_endpoint = 0;
  output_endpoint = 0;
  report_size = pos 0;
  timeout_ms = 50;
}

parse_probe : parse_args probe_command ≡ parsed (options_of (usb_of 1 0xbaff) true)
unfolding parse_args parse_flags find_action flags is_text parse_u16 stoul default_options
    default_usb_options check_options
parse_probe = refl

parse_one_id :
    parse_flags (options_of (usb_of 0 0) false) one_id ≡ parsed (options_of (usb_of 0x17cc 0) false)
unfolding parse_flags find_action flags is_text parse_u16 stoul
parse_one_id = refl

-- A probe that writes two bytes twice.
abbrev pub write_command : List Text
write_command =
    text "s4"
    ∷ text "probe"
    ∷ text "--vid"
    ∷ text "0x17cc"
    ∷ text "--pid"
    ∷ text "0xbaff"
    ∷ text "--alt-setting"
    ∷ text "1"
    ∷ text "--in-ep"
    ∷ text "0x84"
    ∷ text "--report-size"
    ∷ text "4"
    ∷ text "--out-ep"
    ∷ text "1"
    ∷ text "--write-hex"
    ∷ text "05 06"
    ∷ text "--write-repeat"
    ∷ text "2"
    ∷ []

abbrev pub write_options : AppOptions
write_options = record {
  mode = probe;
  stream = false;
  raw_sysex = false;
  usb = options;
  midi_base_channel = 0;
  input_deadzone = 0;
  input_decode_mode = byte;
  input_debug = false;
  input_debug_buttons_only = false;
  write_payload = 5 ∷ 6 ∷ [];
  write_repeat = pos 2;
  write_interval_ms = pos 50;
}

pub parse_write : parse_args write_command ≡ parsed write_options
unfolding parse_args parse_flags find_action flags is_text parse_u16 parse_u8 parse_i32
    parse_hex_bytes hex_bytes stoul default_options default_usb_options check_options
parse_write = refl

-- A bridge without an endpoint, a channel out of range and a flag without its value.
needs_input :
    parse_args (text "s4" ∷ text "bridge" ∷ text "--vid" ∷ text "1" ∷ text "--pid" ∷ text "2" ∷ [])
    ≡ rejected bridge_needs_input
unfolding parse_args parse_flags find_action flags is_text parse_u16 stoul default_options
    default_usb_options check_options
needs_input = refl

channel_17 :
    parse_args (text "s4" ∷ text "probe" ∷ text "--midi-channel" ∷ text "17" ∷ [])
    ≡ rejected bad_channel
unfolding parse_args parse_flags find_action flags is_text parse_i32 default_options
channel_17 = refl

no_value : parse_args (text "s4" ∷ text "probe" ∷ text "--vid" ∷ []) ≡ rejected missing_value
unfolding parse_args parse_flags find_action flags is_text default_options
no_value = refl

parse_args-IsRunnable_example : IsRunnable (options_of (usb_of 1 0xbaff) true)
parse_args-IsRunnable_example =
    parse_args-IsRunnable probe_command (options_of (usb_of 1 0xbaff) true) parse_probe
