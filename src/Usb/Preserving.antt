-- ===== src/Usb/Preserving.antt =====
-- Relations between the device before and after a method of src/usb_device.cpp.
use s4_mk1_usb2midi.Common.{refl, ◌≡◌, arith, List}
use s4_mk1_usb2midi.Usb.{M, UsbDevice, Result, ok, err, undefined, UsbCall, and_then, ◌>>=◌}

abbrev pub Related : {A : Type 0} → (UsbDevice → UsbDevice → Type 0) → M A → Type 0
Related R m = (d : UsbDevice) → R d (m d).device

module _ (R : UsbDevice → UsbDevice → Type 0)
    (trans : (d e f : UsbDevice) → R d e → R e f → R d f) where
  and_then-Related :
      {A B : Type 0} (d e : UsbDevice) (r : Result A) (calls : List UsbCall) (f : A → M B)
      → R d e
      → ((a : A) → Related R (f a))
      → R d (and_then r calls e f).device
  and_then-Related d e (ok a) calls f h k = trans d e (f a e).device h (k a e)
  and_then-Related d e (err x) calls f h k = h
  and_then-Related d e undefined calls f h k = h

  pub bind-Related :
      {A B : Type 0} (m : M A) (f : A → M B)
      → Related R m
      → ((a : A) → Related R (f a))
      → Related R (m >>= f)
  bind-Related m f h k d = and_then-Related d (m d).device (m d).result (m d).calls f (h d) k

-- A method that returns has a first part that returned, and a rest that did from there.
and_then-ok :
    {A B : Type 0} (r : Result A) (calls : List UsbCall) (d : UsbDevice) (f : A → M B) (b : B)
    → (and_then r calls d f).result ≡ ok b
    → (a : A) × (r ≡ ok a)
      × ((f a d).result ≡ ok b)
      × ((and_then r calls d f).device ≡ (f a d).device)
and_then-ok (ok a) calls d f b h = (a, refl, h, refl)
and_then-ok (err e) calls d f b h = ground arith
and_then-ok undefined calls d f b h = ground arith

pub bind-ok :
    {A B : Type 0} (m : M A) (f : A → M B) (d : UsbDevice) (b : B)
    → ((m >>= f) d).result ≡ ok b
    → (a : A) × ((m d).result ≡ ok a)
      × ((f a (m d).device).result ≡ ok b)
      × (((m >>= f) d).device ≡ (f a (m d).device).device)
bind-ok m f d b h = and_then-ok (m d).result (m d).calls (m d).device f b h
