-- ===== src/Midi/Receive.antt =====
-- `read_proc`: the packets of one CoreMIDI call and the callback's exceptions.
use s4_mk1_usb2midi.Common.{ℕ, some, List, [], ◌∷◌, ◌++◌, ◌≡◌, refl, append-nil, ◌∙◌}
use s4_mk1_usb2midi.Midi.{Outcome, returns, thrown, deliver, read_proc}

-- The callback returns for each packet in turn; the state goes from the first to the second.
pub data Runs {ℓ} {S : Type ℓ} (callback : List ℕ → S → Outcome S)
    : S → List (List ℕ) → S → Type ℓ where
  done : {s : S} → Runs callback s [] s
  step :
      {p : List ℕ} {ps : List (List ℕ)} {s t u : S}
      → callback p s ≡ returns t
      → Runs callback t ps u
      → Runs callback s (p ∷ ps) u

module _ {ℓ} {S : Type ℓ} (callback : List ℕ → S → Outcome S) where
  deliver-Runs :
      {s u : S} {ps : List (List ℕ)} (qs : List (List ℕ))
      → Runs callback s ps u
      → deliver callback (ps ++ qs) s ≡ deliver callback qs u
  unfolding deliver
  deliver-Runs qs done = refl
  deliver-Runs qs (step e r) = rw (e, deliver) (deliver-Runs qs r)

-- The packets of a list reach the callback in order; where it throws at one of them, those before it
-- have taken effect, the throwing call keeps its changes, and the rest of the list is dropped.
pub read_proc-thrown {ℓ} :
    {S : Type ℓ} (callback : List ℕ → S → Outcome S) (s t u : S) (p : List ℕ)
    (ps qs : List (List ℕ))
    → Runs callback s ps t
    → callback p t ≡ thrown u
    → (read_proc (some callback) (some ps) s ≡ t)
      × (read_proc (some callback) (some (ps ++ p ∷ qs)) s ≡ u)
unfolding read_proc deliver
read_proc-thrown callback s t u p ps qs r e = (
  simp (append-nil) at (deliver-Runs callback [] r),
  deliver-Runs callback (p ∷ qs) r ∙ rw (e, deliver) refl,
)
