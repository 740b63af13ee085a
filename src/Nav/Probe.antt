-- ===== src/Nav/Probe.antt =====
-- When the link to the admin console is shown.
use orchis_foundry.Prelude.{
  true, false, not, ◌&&◌, Option, List, [], ◌∷◌, if-case, and_both, ◌≡◌, ◌⊎◌, inl, inr, refl, sym,
  ◌∙◌, In, session, Str,
}
use orchis_foundry.Api.{Fetched}
use orchis_foundry.Nav.{Nav, Event, answered, unmounted, is_operator, step}

shown-cause :
    (n : Nav) (e : Event)
    → (step n e).0.show_admin ≡ true
    → (n.show_admin ≡ true)
      ⊎ ((f : Fetched (Option (Option Str))) × (answered f ≡ e) × (is_operator f ≡ true))
unfolding step
shown-cause n (answered f) =
    if-case
      (λ m.
        m.show_admin ≡ true
        → (n.show_admin ≡ true)
          ⊎ ((g : Fetched (Option (Option Str))) × (answered g ≡ answered f)
              × (is_operator g ≡ true)))
      (not n.cancelled && is_operator f) (record n { show_admin = true }) n
      (λ t _. inr (f, refl, (and_both (not n.cancelled) (is_operator f) t).1)) (λ _ h. inl h)
shown-cause n unmounted = λ h. inl h

-- Of a session: the answer that shows the link, where it is not shown before.
session-cause :
    (es : List Event) (n : Nav)
    → (session step n es).0.show_admin ≡ true
    → (n.show_admin ≡ true)
      ⊎ ((f : Fetched (Option (Option Str))) × In (answered f) es × (is_operator f ≡ true))
unfolding session
session-cause [] n s = inl s
session-cause (e ∷ es) n s = elim (session-cause es (step n e).0 s) [
  | inr (f, i, o) ↦ inr (f, inr i, o)
  | inl h ↦ elim (shown-cause n e h) [ inl b ↦ inl b | inr (f, q, o) ↦ inr (f, inl q, o) ]
]

-- The link is shown only where an answer of the console was a success and named a user.
session-operator :
    (es : List Event) (n : Nav)
    → n.show_admin ≡ false
    → (session step n es).0.show_admin ≡ true
    → (f : Fetched (Option (Option Str))) × In (answered f) es × (is_operator f ≡ true)
session-operator es n h s = elim (session-cause es n s) [
  | inl t ↦ absurd (true_false (sym t ∙ h))
  | inr x ↦ x
]
  where
    true_false : true ≡ false → ⊥
    true_false e = cc e
