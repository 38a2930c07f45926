-- ===== src/Cli/Arguments/Ranges.antt =====
-- The ranges of the options that parse_args returns.
use mathlib.Core.Path.{subst}
use s4_mk1_usb2midi.Common.{
  ◌-◌, ◌^◌, [], ◌∷◌, true, false, ◌≤ℤ◌, refl, ◌||◌, Bool-cases, inl, inr, ◌≤◌, ◌⊎◌, ◌==◌, ◌<◌, ◌≡◌,
  IsByte, All, nil, arith, cons, if◌then◌else◌,
}
use s4_mk1_usb2midi.Usb.{UsbOptions}
use s4_mk1_usb2midi.Cli.Arguments.{
  AppOptions, Action, switch, valued, set_usb, set_usb_int, set_write_hex, set_write_repeat,
  set_write_interval, set_midi_channel, set_deadzone, set_decode, unsigned_int, flags, find_action,
  parse_flags, Mode, check_mode, check_options, parse_args, default_options, probe,
  default_usb_options, bridge, parse_mode,
}
use s4_mk1_usb2midi.Cli.{
  Parsed, parse_u16, parse_u8, hex_bytes, parse_hex_bytes, parsed, then_parse, push_byte,
  nonempty_bytes, rejected, List, stoul, ℕ, ◌∷◌, Bool, tokens, ltb, ParseError, ℤ, false, parse_i32,
  parse_decode_mode, pos, leb_ℤ, ltb_ℤ, negsuc, String, u8, pos_part, some, is_text, none,
  bridge_needs_input, ids_required, Text,
}

-- What holds of the options after every flag.
abbrev UsbIsInRange : UsbOptions → Type 0
UsbIsInRange u =
    (u.vendor_id < 2 ^ 16)
    × (u.product_id < 2 ^ 16)
    × IsByte u.input_endpoint
    × IsByte u.output_endpoint
    × (u.timeout_ms < 2 ^ 32)

abbrev IsInRange : AppOptions → Type 0
IsInRange o =
    UsbIsInRange o.usb
    × (o.midi_base_channel < 16)
    × (o.input_deadzone < 128)
    × All IsByte o.write_payload
    × (pos 1 ≤ℤ o.write_repeat)
    × (pos 0 ≤ℤ o.write_interval_ms)

-- A property of what a parse returns, if it returns.
data OnParsed {ℓ} {A : Type ℓ} (P : A → Type 0) : Parsed A → Type ℓ where
  on_parsed : {a : A} → P a → OnParsed P (parsed a)
  on_rejected : {e : ParseError} → OnParsed P (rejected e)

module _ {ℓ} {A : Type ℓ} where
  parsed-OnParsed : {P : A → Type 0} {a : A} → OnParsed P (parsed a) → P a
  parsed-OnParsed (on_parsed h) = h

  then_parse-OnParsed {κ} :
      {B : Type κ} {P : A → Type 0} {Q : B → Type 0} {p : Parsed A} (f : A → Parsed B)
      → OnParsed P p
      → ((a : A) → P a → OnParsed Q (f a))
      → OnParsed Q (then_parse p f)
  then_parse-OnParsed f (on_parsed {a = a} h) k = k a h
  then_parse-OnParsed f on_rejected k = on_rejected

  any-OnParsed : (p : Parsed A) → OnParsed (λ a. Unit {0}) p
  any-OnParsed (parsed a) = on_parsed tt
  any-OnParsed (rejected e) = on_rejected

Preserves : Action → Type 0
Preserves (switch set) = (o : AppOptions) → IsInRange o → IsInRange (set o)
Preserves (valued set) = (v : Text) (o : AppOptions) → IsInRange o → OnParsed IsInRange (set v o)

parse_u16-OnParsed : (v : Text) → OnParsed (λ n. n < 2 ^ 16) (parse_u16 v)
unfolding parse_u16
parse_u16-OnParsed v =
    then_parse-OnParsed _ (any-OnParsed (stoul 0 v)) λ n h. on_parsed (omega arith)

parse_u8-OnParsed : (v : Text) → OnParsed IsByte (parse_u8 v)
unfolding parse_u8
parse_u8-OnParsed v =
    then_parse-OnParsed _ (any-OnParsed (stoul 0 v)) λ n h. on_parsed (omega arith)

push_byte-OnParsed :
    (b : Bool) (n : ℕ) {p : Parsed (List ℕ)}
    → OnParsed (All IsByte) p
    → OnParsed (All IsByte) (push_byte b n p)
unfolding push_byte
push_byte-OnParsed true n h = on_rejected
push_byte-OnParsed false n h = then_parse-OnParsed _ h λ bs k. on_parsed (cons (omega arith) k)

hex_bytes-OnParsed : (ts : List Text) → OnParsed (All IsByte) (hex_bytes ts)
unfolding hex_bytes
hex_bytes-OnParsed [] = on_parsed nil
hex_bytes-OnParsed (t ∷ ts) =
    then_parse-OnParsed _ (any-OnParsed (stoul 16 t))
      λ n h. push_byte-OnParsed (ltb 0xff n) n (hex_bytes-OnParsed ts)

nonempty_bytes-OnParsed : (bs : List ℕ) → All IsByte bs → OnParsed (All IsByte) (nonempty_bytes bs)
unfolding nonempty_bytes
nonempty_bytes-OnParsed [] k = on_rejected
nonempty_bytes-OnParsed (b ∷ bs) k = on_parsed k

parse_hex_bytes-OnParsed : (v : Text) → OnParsed (All IsByte) (parse_hex_bytes v)
unfolding parse_hex_bytes
parse_hex_bytes-OnParsed v =
    then_parse-OnParsed _ (hex_bytes-OnParsed (tokens v)) nonempty_bytes-OnParsed

-- Every flag keeps the ranges.
set_usb-Preserves :
    {P : ℕ → Type 0} (set : ℕ → UsbOptions → UsbOptions) (parse : Text → Parsed ℕ)
    → ((v : Text) → OnParsed P (parse v))
    → ((n : ℕ) (u : UsbOptions) → P n → UsbIsInRange u → UsbIsInRange (set n u))
    → Preserves (valued (set_usb set parse))
unfolding Preserves set_usb
set_usb-Preserves set parse h k v o (u, c, d, w, n, i) =
    then_parse-OnParsed _ (h v) λ x p. on_parsed (k x o.usb p u, c, d, w, n, i)

set_usb_int-Preserves :
    (set : ℤ → UsbOptions → UsbOptions)
    → ((n : ℤ) (u : UsbOptions) → UsbIsInRange u → UsbIsInRange (set n u))
    → Preserves (valued (set_usb_int set))
unfolding Preserves set_usb_int
set_usb_int-Preserves set k v o (u, c, d, w, n, i) =
    then_parse-OnParsed _ (any-OnParsed (parse_i32 v)) λ x p. on_parsed (k x o.usb u, c, d, w, n, i)

set_write_hex-Preserves : Preserves (valued set_write_hex)
unfolding Preserves set_write_hex
set_write_hex-Preserves v o (u, c, d, w, n, i) =
    then_parse-OnParsed _ (parse_hex_bytes-OnParsed v) λ bs h. on_parsed (u, c, d, h, n, i)

unless_rejected :
    (b : Bool) (e : ParseError) (o : AppOptions)
    → (b ≡ false → IsInRange o)
    → OnParsed IsInRange (if b then rejected e else parsed o)
unless_rejected true e o k = on_rejected
unless_rejected false e o k = on_parsed (k refl)

set_write_repeat-Preserves : Preserves (valued set_write_repeat)
unfolding Preserves set_write_repeat
set_write_repeat-Preserves v o (u, c, d, w, n, i) =
    then_parse-OnParsed _ (any-OnParsed (parse_i32 v))
      λ z p. unless_rejected _ _ _ λ e. (u, c, d, w, at_least_1 z e, i)
  where
    at_least_1 : (z : ℤ) → leb_ℤ z (pos 0) ≡ false → pos 1 ≤ℤ z
    at_least_1 (pos m) e = ground arith
    at_least_1 (negsuc m) e = ground arith

set_write_interval-Preserves : Preserves (valued set_write_interval)
unfolding Preserves set_write_interval
set_write_interval-Preserves v o (u, c, d, w, n, i) =
    then_parse-OnParsed _ (any-OnParsed (parse_i32 v))
      λ z p. unless_rejected _ _ _ λ e. (u, c, d, w, n, at_least_0 z e)
  where
    at_least_0 : (z : ℤ) → ltb_ℤ z (pos 0) ≡ false → pos 0 ≤ℤ z
    at_least_0 (pos m) e = ground arith
    at_least_0 (negsuc m) e = ground arith

set_midi_channel-Preserves : Preserves (valued set_midi_channel)
unfolding Preserves set_midi_channel
set_midi_channel-Preserves v o (u, c, d, w, n, i) =
    then_parse-OnParsed _ (any-OnParsed (parse_i32 v))
      λ z p. unless_rejected _ _ _ λ e. (u, nibble z e, d, w, n, i)
  where
    nibble : (z : ℤ) → (ltb_ℤ z (pos 1) || ltb_ℤ (pos 16) z) ≡ false → u8 (pos_part z - 1) < 16
    nibble (pos m) e = ground arith
    nibble (negsuc m) e = ground arith

set_deadzone-Preserves : Preserves (valued set_deadzone)
unfolding Preserves set_deadzone
set_deadzone-Preserves v o (u, c, d, w, n, i) =
    then_parse-OnParsed _ (any-OnParsed (parse_i32 v))
      λ z p. unless_rejected _ _ _ λ e. (u, c, data_byte z e, w, n, i)
  where
    data_byte : (z : ℤ) → (ltb_ℤ z (pos 0) || ltb_ℤ (pos 127) z) ≡ false → u8 (pos_part z) < 128
    data_byte (pos m) e = ground arith
    data_byte (negsuc m) e = ground arith

set_decode-Preserves : Preserves (valued set_decode)
unfolding Preserves set_decode
set_decode-Preserves v o r =
    then_parse-OnParsed _ (any-OnParsed (parse_decode_mode v)) λ m p. on_parsed r

unsigned_int-lt : (n : ℤ) → unsigned_int n < 2 ^ 32
unfolding unsigned_int
unsigned_int-lt (pos n) = omega arith
unsigned_int-lt (negsuc n) = omega arith

flags-Preserve : All (λ (f : String × Action). Preserves f.1) flags
unfolding flags Preserves
flags-Preserve =
    cons (set_usb-Preserves _ _ parse_u16-OnParsed λ x u h (v, p, i, o, t). (h, p, i, o, t)) (
      cons (set_usb-Preserves _ _ parse_u16-OnParsed λ x u h (v, p, i, o, t). (v, h, i, o, t)) (
        cons (set_usb_int-Preserves _ λ x u r. r) (
          cons (set_usb_int-Preserves _ λ x u r. r) (
            cons (set_usb-Preserves _ _ parse_u8-OnParsed λ x u h (v, p, i, o, t). (v, p, h, o, t))
              (cons
                (set_usb-Preserves _ _ parse_u8-OnParsed λ x u h (v, p, i, o, t). (v, p, i, h, t))
                (cons (set_usb_int-Preserves _ λ x u r. r) (
                  cons
                    (set_usb_int-Preserves _ λ x u (v, p, i, o, t). (v, p, i, o, unsigned_int-lt x))
                    (cons (λ o r. r)
                      (cons set_write_hex-Preserves (
                        cons set_write_repeat-Preserves (
                          cons set_write_interval-Preserves (
                            cons set_midi_channel-Preserves (
                              cons set_deadzone-Preserves (
                                cons set_decode-Preserves (
                                  cons (λ o r. r)
                                    (cons (λ o r. r) (cons (λ o r. r) nil)))))))))))))))))

find_action-Preserves :
    {table : List (String × Action)} (flag : Text)
    → All (λ (f : String × Action). Preserves f.1) table
    → (find_action table flag ≡ none)
      ⊎ ((a : Action) × Preserves a × (find_action table flag ≡ some a))
unfolding find_action
find_action-Preserves flag nil = inl refl
find_action-Preserves flag (cons {x = f} h hs) = elim (Bool-cases (is_text flag f.0)) [
  | inl t ↦ inr (f.1, h, rw t refl)
  | inr t ↦ rw t (find_action-Preserves flag hs)
]

parse_flags-OnParsed :
    (o : AppOptions) (args : List Text) → IsInRange o → OnParsed IsInRange (parse_flags o args)
unfolding parse_flags Preserves
parse_flags-OnParsed o [] r = on_parsed r
parse_flags-OnParsed o (flag ∷ []) r = elim (find_action-Preserves flag flags-Preserve) [
  | inl e ↦ rw (e, parse_flags) on_rejected
  | inr (switch set, h, e) ↦ rw (e, parse_flags) (on_parsed (h o r))
  | inr (valued set, h, e) ↦ rw (e, parse_flags) on_rejected
]
parse_flags-OnParsed o (flag ∷ value ∷ rest) r = elim (find_action-Preserves flag flags-Preserve) [
  | inl e ↦ rw (e, parse_flags) on_rejected
  | inr (switch set, h, e) ↦
      rw (e, parse_flags) (parse_flags-OnParsed (set o) (value ∷ rest) (h o r))
  | inr (valued set, h, e) ↦
      rw (e, parse_flags)
        (then_parse-OnParsed _ (h value o r) λ o' r'. parse_flags-OnParsed o' rest r')
]

-- What the program may rely on.
BridgeIsReady : Mode → UsbOptions → Type 0
BridgeIsReady probe u = Unit
BridgeIsReady bridge u = (1 ≤ u.input_endpoint) × (pos 1 ≤ℤ u.report_size)

pub IsRunnable : AppOptions → Type 0
unfolding BridgeIsReady
IsRunnable o =
    IsInRange o × (1 ≤ o.usb.vendor_id) × (1 ≤ o.usb.product_id) × BridgeIsReady o.mode o.usb

report_size_lem : (z : ℤ) → leb_ℤ z (pos 0) ≡ false → pos 1 ≤ℤ z
report_size_lem (pos m) e = ground arith
report_size_lem (negsuc m) e = ground arith

check_mode-OnParsed :
    (m : Mode) (u : UsbOptions) (o : AppOptions) {P : AppOptions → Type 0}
    → (BridgeIsReady m u → P o)
    → OnParsed P (check_mode m u o)
unfolding check_mode BridgeIsReady
check_mode-OnParsed probe u o k = on_parsed (k tt)
check_mode-OnParsed bridge u o {P = P} k =
    branch (u.input_endpoint == 0) (leb_ℤ u.report_size (pos 0))
      λ e f. k (ground arith, report_size_lem u.report_size f)
  where
    branch :
        (a b : Bool)
        → (a ≡ false → b ≡ false → P o)
        → OnParsed P (if a || b then rejected bridge_needs_input else parsed o)
    branch true b h = on_rejected
    branch false true h = on_rejected
    branch false false h = on_parsed (h refl refl)

check_options-OnParsed : (o : AppOptions) → IsInRange o → OnParsed IsRunnable (check_options o)
unfolding check_options IsRunnable
check_options-OnParsed o r =
    branch (o.usb.vendor_id == 0) (o.usb.product_id == 0)
      λ e f. check_mode-OnParsed o.mode o.usb o λ b. (r, ground arith, ground arith, b)
  where
    branch :
        (a b : Bool)
        → (a ≡ false → b ≡ false → OnParsed IsRunnable (check_mode o.mode o.usb o))
        → OnParsed IsRunnable (if a || b then rejected ids_required else check_mode o.mode o.usb o)
    branch true b h = on_rejected
    branch false true h = on_rejected
    branch false false h = h refl refl

parse_args-OnParsed : (args : List Text) → OnParsed IsRunnable (parse_args args)
unfolding parse_args default_options default_usb_options
parse_args-OnParsed [] = on_rejected
parse_args-OnParsed (program ∷ []) = on_rejected
parse_args-OnParsed (program ∷ mode ∷ rest) =
    then_parse-OnParsed _ (any-OnParsed (parse_mode mode)) λ m t.
      then_parse-OnParsed _
        (parse_flags-OnParsed (default_options m) rest (
          (omega arith, omega arith, omega arith, omega arith, omega arith),
          omega arith,
          omega arith,
          nil,
          omega arith,
          omega arith,
        ))
        check_options-OnParsed

-- The options that `parse_args` returns can be run, whatever the arguments: the vendor and the
-- product id are between 1 and 65535, the endpoints are bytes, the channel is below 16 and the
-- deadzone below 128, the bytes to write are bytes, the repeat count is positive and the interval
-- not negative; and in bridge mode there is an input endpoint and a positive report size.
pub parse_args-IsRunnable :
    (args : List Text) (o : AppOptions) → parse_args args ≡ parsed o → IsRunnable o
parse_args-IsRunnable args o e =
    parsed-OnParsed (subst (OnParsed IsRunnable) e (parse_args-OnParsed args))
