-- ===== src/Cli/Arguments/Order.antt =====
-- The order in which parse_args reads the flags.
use s4_mk1_usb2midi.Common.{
  ◌≡◌, ◌∷◌, ◌++◌, [], Option-cases, inl, arith, refl, inr, ◌∙◌, sym, ◌⊎◌, ap,
}
use s4_mk1_usb2midi.Cli.Arguments.{
  AppOptions, Parsed, parsed, Text, List, rejected, find_action, parse_flags, flags, some, switch,
  unknown_flag, valued, missing_value, none, then_parse, ParseError,
}

from_parsed : AppOptions → Parsed AppOptions → AppOptions
from_parsed o (parsed a) = a
from_parsed o (rejected e) = o

parsed_inj : {a b : AppOptions} → parsed a ≡ parsed b → a ≡ b
unfolding from_parsed
parsed_inj {a = a} e = ap (from_parsed a) e

Parsed-cases :
    (p : Parsed AppOptions)
    → ((a : AppOptions) × (p ≡ parsed a)) ⊎ ((e : ParseError) × (p ≡ rejected e))
Parsed-cases (parsed a) = inl (a, refl)
Parsed-cases (rejected e) = inr (e, refl)

-- One round of the loop, by what the flag is.
module _ (o : AppOptions) (flag : Text) where
  unknown_step :
      (ys : List Text)
      → find_action flags flag ≡ none
      → parse_flags o (flag ∷ ys) ≡ rejected unknown_flag
  unfolding parse_flags
  unknown_step [] e = rw (e, parse_flags) refl
  unknown_step (y ∷ ys) e = rw (e, parse_flags) refl

  switch_step :
      (set : AppOptions → AppOptions) (ys : List Text)
      → find_action flags flag ≡ some (switch set)
      → parse_flags o (flag ∷ ys) ≡ parse_flags (set o) ys
  unfolding parse_flags
  switch_step set [] e = rw (e, parse_flags) refl
  switch_step set (y ∷ ys) e = rw (e, parse_flags) refl

  missing_step :
      (set : Text → AppOptions → Parsed AppOptions)
      → find_action flags flag ≡ some (valued set)
      → parse_flags o (flag ∷ []) ≡ rejected missing_value
  unfolding parse_flags
  missing_step set e = rw (e, parse_flags) refl

  valued_step :
      (set : Text → AppOptions → Parsed AppOptions) (value : Text) (ys : List Text)
      → find_action flags flag ≡ some (valued set)
      → parse_flags o (flag ∷ value ∷ ys) ≡ then_parse (set value o) (λ o'. parse_flags o' ys)
  unfolding parse_flags
  valued_step set value ys e = rw (e, parse_flags) refl

rejected_parsed :
    {e : ParseError} {a : AppOptions} {p : Parsed AppOptions} → p ≡ rejected e → p ≡ parsed a → ⊥
rejected_parsed h k = ground arith

-- Flags are read from left to right and each one changes the options that the earlier ones left: a
-- command line whose first part is accepted by itself goes on as its second part does from the
-- options of the first.
pub parse_flags-append :
    (o o' : AppOptions) (xs ys : List Text)
    → parse_flags o xs ≡ parsed o'
    → parse_flags o (xs ++ ys) ≡ parse_flags o' ys
parse_flags-append o o' [] ys e =
    unfold parse_flags in ap (λ (p : AppOptions). parse_flags p ys) (parsed_inj e)
parse_flags-append o o' (flag ∷ []) ys e = elim (Option-cases (find_action flags flag)) [
  | inl f ↦ absurd (rejected_parsed (unknown_step o flag [] f) e)
  | inr (switch set, f) ↦
      switch_step o flag set ys f
      ∙ parse_flags-append (set o) o' [] ys (sym (switch_step o flag set [] f) ∙ e)
  | inr (valued set, f) ↦ absurd (rejected_parsed (missing_step o flag set f) e)
]
parse_flags-append o o' (flag ∷ value ∷ rest) ys e = elim (Option-cases (find_action flags flag)) [
  | inl f ↦ absurd (rejected_parsed (unknown_step o flag (value ∷ rest) f) e)
  | inr (switch set, f) ↦
      switch_step o flag set (value ∷ rest ++ ys) f
      ∙ parse_flags-append (set o) o' (value ∷ rest) ys
          (sym (switch_step o flag set (value ∷ rest) f) ∙ e)
  | inr (valued set, f) ↦ elim (Parsed-cases (set value o)) [
    | inl (a, p) ↦
        valued_step o flag set value (rest ++ ys) f
        ∙ ap (λ (q : Parsed AppOptions). then_parse q (λ o''. parse_flags o'' (rest ++ ys))) p
        ∙ parse_flags-append a o' rest ys (
            sym (ap (λ (q : Parsed AppOptions). then_parse q (λ o''. parse_flags o'' rest)) p)
            ∙ sym (valued_step o flag set value rest f)
            ∙ e)
    | inr (r, p) ↦ absurd (
        rejected_parsed
          (valued_step o flag set value rest f
            ∙ ap (λ (q : Parsed AppOptions). then_parse q (λ o''. parse_flags o'' rest)) p)
          e)
  ]
]
