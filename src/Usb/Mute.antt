-- ===== src/Usb/Mute.antt =====
-- The methods of src/usb_device.cpp that transfer nothing.
use s4_mk1_usb2midi.Common.{
  refl, Bool, ◌≡◌, List, true, false, ◌∷◌, ◌++◌, ◌&&◌, &&_left, &&_right, [],
}
use s4_mk1_usb2midi.Usb.{
  M, UsbDevice, Result, ok, err, undefined, UsbCall, and_then, ◌>>=◌, transfers,
}

abbrev pub is_mute : UsbCall → Bool
is_mute (transfers kind e bytes ms) = false
is_mute call = true

abbrev pub all_mute : List UsbCall → Bool
all_mute [] = true
all_mute (c ∷ cs) = is_mute c && all_mute cs

pub all_mute-append :
    (xs ys : List UsbCall) → all_mute xs ≡ true → all_mute ys ≡ true → all_mute (xs ++ ys) ≡ true
all_mute-append [] ys h k = k
all_mute-append (x ∷ xs) ys h k =
    rw
      (
        &&_left (is_mute x) (all_mute xs) h,
        all_mute-append xs ys (&&_right (is_mute x) (all_mute xs) h) k,
      )
      refl

abbrev pub Mute : {A : Type 0} → M A → Type 0
Mute m = (d : UsbDevice) → all_mute (m d).calls ≡ true

and_then-Mute :
    {A B : Type 0} (r : Result A) (calls : List UsbCall) (d : UsbDevice) (f : A → M B)
    → all_mute calls ≡ true
    → ((a : A) → Mute (f a))
    → all_mute (and_then r calls d f).calls ≡ true
and_then-Mute (ok a) calls d f h k = all_mute-append calls (f a d).calls h (k a d)
and_then-Mute (err x) calls d f h k = h
and_then-Mute undefined calls d f h k = h

pub bind-Mute :
    {A B : Type 0} (m : M A) (f : A → M B) → Mute m → ((a : A) → Mute (f a)) → Mute (m >>= f)
bind-Mute m f h k d = and_then-Mute (m d).result (m d).calls (m d).device f (h d) k
