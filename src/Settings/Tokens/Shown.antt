-- ===== src/Settings/Tokens/Shown.antt =====
-- How long the secret of a token is shown.
use orchis_foundry.Prelude.{
  some, List, [], ◌∷◌, ◌++◌, ◌≡◌, refl, ap, ◌⊎◌, inl, inr, All, session, arith,
}
use orchis_foundry.Api.{done, failed}
use orchis_foundry.Settings.Tokens.{
  Generated, Tokens, Event, saved, created, rotated, revoked, listed, step, panel_step, submit_form,
  unless_shown,
}

-- The answers that bring a token.
abbrev pub Brings : Generated → Event → Type 0
Brings g (created n (done h)) = h ≡ g
Brings g (rotated (done h)) = h ≡ g
Brings g _ = ⊥

-- No other answer of this kind, and no "I've saved it".
abbrev pub IsQuiet : Event → Type 0
IsQuiet (created n (done h)) = ⊥
IsQuiet (rotated (done h)) = ⊥
IsQuiet saved = ⊥
IsQuiet _ = Unit

-- An event at the panel leaves what is shown.
panel_step-generated : (s : Tokens) (e : Event) → (panel_step s e).0.generated ≡ s.generated
unfolding panel_step submit_form
panel_step-generated s e = ground arith

step-shown :
    (s : Tokens) (e : Event) (g : Generated)
    → (step s e).0.generated ≡ some g
    → Brings g e ⊎ ((s.generated ≡ some g) × IsQuiet e)
unfolding step unless_shown
step-shown s saved g h = ground arith
step-shown s (created n (done x)) g h = inl (cc h)
step-shown s (created n (failed x)) g h = inr (ground arith, tt)
step-shown s (rotated (done x)) g h = inl (cc h)
step-shown s (rotated (failed x)) g h = inr (h, tt)
step-shown s (revoked n ok) g h = inr (h, tt)
step-shown s (listed n r) g h = inr (ground (arith, h), tt)
step-shown s e g h = inr (ground (arith, panel_step-generated s e), tt)

-- A secret is shown only from the answer that brings it to the click that says it is saved: where it is
-- shown at the end of a session, either it was at its start, or an answer of the session brought it, and
-- since then no token was brought and none was said to be saved.
pub session-shown :
    (es : List Event) (s : Tokens) (g : Generated)
    → (session step s es).0.generated ≡ some g
    → ((s.generated ≡ some g) × All IsQuiet es)
      ⊎ ((before : List Event) × (e : Event) × (after : List Event) × (es ≡ before ++ e ∷ after)
          × Brings g e
          × All IsQuiet after)
unfolding session
session-shown [] s g h = inl (h, tt)
session-shown (e ∷ es) s g h = elim (session-shown es (step s e).0 g h) [
  | inr (before, d, after, split, brings, quiet) ↦
      inr (e ∷ before, d, after, ap (e ∷◌) split, brings, quiet)
  | inl (now, quiet) ↦ elim (step-shown s e g now) [
    | inl brings ↦ inr ([], e, es, refl, brings, quiet)
    | inr (then, q) ↦ inl (then, (q, quiet))
  ]
]
