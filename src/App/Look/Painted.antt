-- ===== src/App/Look/Painted.antt =====
-- The document shows the preferences.
use orchis_foundry.Prelude.{
  ◌&&◌, List, [], ◌∷◌, if◌then◌else◌, if-case, and_both, ◌≡◌, refl, ap, ◌∙◌, Str, eqs, eqs_iff,
}
use orchis_foundry.App.Prefs.{Prefs}
use orchis_foundry.App.Prefs
use orchis_foundry.App.Look.{Document, hues, faces, painted, repainted, show_all}

kept_one {ℓ} : {A : Type ℓ} (f : Str → A) (a b : Str) → (if eqs a b then f a else f b) ≡ f b
kept_one f a b =
    if-case (λ x. x ≡ f b) (eqs a b) (f a) (f b) (λ t. ap f ((eqs_iff a b).0 t)) (λ _. refl)

kept_two {ℓ} :
    {A : Type ℓ} (f : Str → Str → A) (a b c d : Str)
    → (if eqs a b && eqs c d then f a c else f b d) ≡ f b d
kept_two f a b c d =
    if-case (λ x. x ≡ f b d) (eqs a b && eqs c d) (f a c) (f b d)
      (λ t.
        let (x, y) = and_both (eqs a b) (eqs c d) t in
        ap (λ z. f z c) ((eqs_iff a b).0 x) ∙ ap (f b) ((eqs_iff c d).0 y))
      (λ _. refl)

repainted-painted : (p q : Prefs) → repainted p q (painted p) ≡ painted q
unfolding repainted
repainted-painted p q =
    rw
      (
        kept_one (λ x. x) p.theme q.theme,
        kept_one (λ x. x) p.tweaks.density q.tweaks.density,
        kept_two hues p.tweaks.accent q.tweaks.accent p.theme q.theme,
        kept_one faces p.tweaks.font q.tweaks.font,
      )
      refl

-- Though each effect runs only where a value that it depends on has changed, a document that shows the
-- preferences shows them after any events: the theme, the density, and the colours and fonts of both.
pub show_all-painted :
    (es : List Prefs.Event) (p : Prefs) (d : Document)
    → d ≡ painted p
    → (show_all p d es).1 ≡ painted (show_all p d es).0
unfolding show_all
show_all-painted [] p d h = h
show_all-painted (e ∷ es) p d h =
    let q = (Prefs.step p e).0 in
    show_all-painted es q (repainted p q d) (ap (repainted p q) h ∙ repainted-painted p q)
