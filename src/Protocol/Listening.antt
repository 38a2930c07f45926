-- ===== src/Protocol/Listening.antt =====
-- A listener that keeps the bits of a report: after the flips to the next report it has that one's.
use s4_mk1_usb2midi.Protocol.BitView.{Flip, byte_flips, flips}
use s4_mk1_usb2midi.Common.{
  ℕ, List, ◌≢◌, ◌≤◌, ◌∷◌, ◌++◌, ◌⊎◌, ◌<◌, ◌+◌, if◌then◌else◌, ◌≡◌, bit_at, ◌==◌, suc, arith,
  get_elem?, ◌&&◌, bit_at-lt, inl, some, zero, [], refl,
}

-- What a listener believes of bit `b` of byte `i`: the last flip heard, or `v` if there is none.
pub heard : ℕ → ℕ → ℕ → List Flip → ℕ
heard i b v [] = v
heard i b v (f ∷ fs) =
    heard i b (if f.index == i && f.bit == b then (if f.on then 1 else 0) else v) fs

heard-append :
    (i b v : ℕ) (fs gs : List Flip) → heard i b v (fs ++ gs) ≡ heard i b (heard i b v fs) gs
unfolding heard
heard-append i b v [] gs = refl
heard-append i b v (f ∷ fs) gs =
    heard-append i b (if f.index == i && f.bit == b then (if f.on then 1 else 0) else v) fs gs

-- Flips of other bytes, and of higher bits, leave the belief alone.
heard_elsewhere :
    (left k i j b v p c : ℕ) → (i ≢ j) ⊎ (b < k) → heard j b v (byte_flips left k i p c) ≡ v
unfolding heard byte_flips
heard_elsewhere zero k i j b v p c h = refl
heard_elsewhere (suc left) k i j b v p c h =
    ground (arith, heard_elsewhere left (suc k) i j b v p c)

heard_here :
    (left k i b p c : ℕ)
    → k ≤ b
    → b < k + left
    → heard i b (bit_at p b) (byte_flips left k i p c) ≡ bit_at c b
unfolding heard byte_flips
heard_here zero k i b p c h h' = absurd (omega arith)
heard_here (suc left) k i b p c h h' = ground (
  arith,
  heard_here left (suc k) i b p c,
  heard_elsewhere left (suc k) i i b (bit_at c b) p c,
  bit_at-lt p b,
  bit_at-lt c b,
)

heard-flips_later : (i j b v : ℕ) (ps cs : List ℕ) → j < i → heard j b v (flips i ps cs) ≡ v
unfolding flips heard
heard-flips_later i j b v [] cs h = refl
heard-flips_later i j b v (p ∷ ps) [] h = refl
heard-flips_later i j b v (p ∷ ps) (c ∷ cs) h =
    rw
      (
        heard-append j b v (byte_flips 8 0 i p c) (flips (suc i) ps cs),
        heard_elsewhere 8 0 i j b v p c (inl (omega arith)),
      )
      (heard-flips_later (suc i) j b v ps cs (omega arith))

-- Listening to the flips from one report to the next, starting from the bits of the first, gives
-- the bits of the second wherever both have the byte.
pub heard-flips :
    (i k j b p c : ℕ) (ps cs : List ℕ)
    → i + k ≡ j
    → b < 8
    → get_elem? ps k ≡ some p
    → get_elem? cs k ≡ some c
    → heard j b (bit_at p b) (flips i ps cs) ≡ bit_at c b
unfolding flips
heard-flips i k j b p c [] cs s h e e' = cc
heard-flips i k j b p c (q ∷ ps) [] s h e e' = cc
heard-flips i zero j b p c (q ∷ ps) (d ∷ cs) s h e e' =
    let i≡j : i ≡ j = omega arith in
    let q≡p : q ≡ p = cc in
    let d≡c : d ≡ c = cc in
    rw
      (
        heard-append j b (bit_at p b) (byte_flips 8 0 i q d) (flips (suc i) ps cs),
        heard-flips_later (suc i) j b (heard j b (bit_at p b) (byte_flips 8 0 i q d)) ps cs
            (omega arith),
        i≡j,
        q≡p,
        d≡c,
      )
      (heard_here 8 0 j b p c (omega arith) (omega arith))
heard-flips i (suc k) j b p c (q ∷ ps) (d ∷ cs) s h e e' =
    rw
      (
        heard-append j b (bit_at p b) (byte_flips 8 0 i q d) (flips (suc i) ps cs),
        heard_elsewhere 8 0 i j b (bit_at p b) q d (inl (omega arith)),
      )
      (heard-flips (suc i) k j b p c ps cs (omega arith) h e e')
