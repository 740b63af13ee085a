-- ===== src/App/Prefs/Saved.antt =====
-- The preferences of the page, against those of the account.
use orchis_foundry.Prelude.{
  Bool, true, false, Option, none, some, List, [], ◌∷◌, ◌++◌, ◌||◌, if◌then◌else◌, ◌≡◌, inl, inr,
  ◌∙◌, refl, sym, ap, Bool-cases, Str, codes, eqs, All,
}
use orchis_foundry.App.Prefs.{
  Tweaks, Edits, Partial, Prefs, Event, pick_theme, tweak, loaded, hydrated, or_old, merged,
  any_edit, has_any, hydrate_theme, set_tweak, step, run,
}

-- The preferences of an account, without the keys that it lacks.
pub record Account : Type 0 where
  pub theme : Str
  pub tweaks : Tweaks

-- What an account that takes the last value of each key makes of a request.
abbrev received : Account → Partial → Account
received a part = record { theme = or_old part.theme a.theme; tweaks = merged a.tweaks part.edits }

abbrev pub received_all : Account → List Partial → Account
received_all a [] = a
received_all a (part ∷ ps) = received_all (received a part) ps

abbrev pub account_of : Prefs → Account
account_of p = record { theme = p.theme; tweaks = p.tweaks }

-- A change that the user makes.
abbrev IsUser : Event → Type 0
IsUser (pick_theme v taken) = Unit
IsUser (tweak e) = Unit
IsUser (loaded o taken) = o ≡ none
IsUser hydrated = Unit

received_all-append :
    (a : Account) (ps qs : List Partial)
    → received_all a (ps ++ qs) ≡ received_all (received_all a ps) qs
received_all-append a [] qs = refl
received_all-append a (p ∷ ps) qs = received_all-append (received a p) ps qs

-- The last theme that was picked and taken by the storage.
abbrev pub taken_theme : Str → List Event → Str
taken_theme v [] = v
taken_theme v (pick_theme w true ∷ es) = taken_theme w es
taken_theme v (_ ∷ es) = taken_theme v es

-- An account that agrees with the page but for its theme.
abbrev account_with : Str → Prefs → Account
account_with v p = record { theme = v; tweaks = p.tweaks }

step-user :
    (p : Prefs) (e : Event) (v : Str)
    → IsUser e
    → p.hydrating ≡ false
    → ((step p e).0.hydrating ≡ false)
      × (received_all (account_with v p) (step p e).1
          ≡ account_with (taken_theme v (e ∷ [])) (step p e).0)
unfolding step
step-user p (pick_theme w true) v u h = (h, simp h refl)
step-user p (pick_theme w false) v u h = (h, refl)
step-user p (tweak e) v u h = (h, simp h refl)
step-user p (loaded none taken) v u h = (h, refl)
step-user p (loaded (some part) taken) v u h = cc u
step-user p hydrated v u h = (refl, refl)

taken_theme-cons :
    (v : Str) (e : Event) (es : List Event)
    → taken_theme v (e ∷ es) ≡ taken_theme (taken_theme v (e ∷ [])) es
taken_theme-cons v (pick_theme w true) es = refl
taken_theme-cons v (pick_theme w false) es = refl
taken_theme-cons v (tweak e) es = refl
taken_theme-cons v (loaded o taken) es = refl
taken_theme-cons v hydrated es = refl

run-received :
    (es : List Event) (p : Prefs) (v : Str)
    → All IsUser es
    → p.hydrating ≡ false
    → received_all (account_with v p) (run p es).1 ≡ account_with (taken_theme v es) (run p es).0
unfolding run
run-received [] p v u h = refl
run-received (e ∷ es) p v (now, u) h =
    let (still, agrees) = step-user p e v now h in
    received_all-append (account_with v p) (step p e).1 (run (step p e).0 es).1
    ∙ ap (λ a. received_all a (run (step p e).0 es).1) agrees
    ∙ run-received es (step p e).0 (taken_theme v (e ∷ [])) u still
    ∙ ap (λ w. account_with w (run (step p e).0 es).0) (sym (taken_theme-cons v e es))

-- Where the account and the page agree, no answer with preferences is being taken over, and none comes:
-- after any changes of the theme and the tweaks in the shell, an account that takes the requests in order,
-- the last value of each key, holds the tweaks that the page shows, and as its theme the last one that the
-- storage of the browser took; a theme that it did not take is shown but not saved.
pub run-received_all :
    (es : List Event) (p : Prefs)
    → All IsUser es
    → p.hydrating ≡ false
    → received_all (account_of p) (run p es).1
      ≡ record { theme = taken_theme p.theme es; tweaks = (run p es).0.tweaks }
run-received_all es p u h = run-received es p p.theme u h

-- The theme that an answer sets, if it is one of the two.
abbrev known_theme : Option Str → Option Str
known_theme none = none
known_theme (some v) = if eqs v (codes "light") || eqs v (codes "dark") then some v else none

or_old_nothing {ℓ} : {A : Type ℓ} (o : Option A) (x : A) → has_any o ≡ false → or_old o x ≡ x
or_old_nothing none x h = refl
or_old_nothing (some y) x h = cc h

or_false : (a b : Bool) → (a || b) ≡ false → (a ≡ false) × (b ≡ false)
or_false true b h = cc h
or_false false b h = (refl, h)

merged_nothing : (t : Tweaks) (e : Edits) → any_edit e ≡ false → merged t e ≡ t
merged_nothing t e h =
    let (abc, d) =
      or_false (has_any e.accent || has_any e.density || has_any e.font) (has_any e.show_split_tip)
        h in
    let (ab, c) = or_false (has_any e.accent || has_any e.density) (has_any e.font) abc in
    let (a, b) = or_false (has_any e.accent) (has_any e.density) ab in
    rw
      (
        or_old_nothing e.accent t.accent a,
        or_old_nothing e.density t.density b,
        or_old_nothing e.font t.font c,
        or_old_nothing e.show_split_tip t.show_split_tip d,
      )
      refl

abbrev with_theme : Prefs → Option Str → Account
with_theme p o = record { theme = or_old (known_theme o) p.theme; tweaks = p.tweaks }

hydrate_theme_lem :
    (p : Prefs) (o : Option Str)
    → ((hydrate_theme p o).hydrating ≡ p.hydrating)
      × (account_of (hydrate_theme p o) ≡ with_theme p o)
hydrate_theme_lem p none = (refl, refl)
hydrate_theme_lem p (some v) = elim (Bool-cases (eqs v (codes "light") || eqs v (codes "dark"))) [
  | inl t ↦ rw t (refl, refl)
  | inr f ↦ rw f (refl, refl)
]

set_tweak_quiet :
    (q : Prefs) (e : Edits)
    → q.hydrating ≡ true
    → ((set_tweak q e).1 ≡ [])
      × (account_of (set_tweak q e).0
          ≡ received (account_of q) (record { theme = none; edits = e }))
set_tweak_quiet q e h = (rw h refl, refl)

-- The answer to the first request, where the storage takes its theme, is taken over, a theme only where it
-- is light or dark, and nothing of it is saved again.
loaded_lem :
    (p : Prefs) (part : Partial)
    → ((step p (loaded (some part) true)).1 ≡ [])
      × (account_of (step p (loaded (some part) true)).0
          ≡ received (account_of p) (record part { theme = known_theme part.theme }))
unfolding step
loaded_lem p part =
    let (busy, themed) = hydrate_theme_lem (record p { hydrating = true }) part.theme in
    let (quiet, taken) =
      set_tweak_quiet (hydrate_theme (record p { hydrating = true }) part.theme) part.edits busy in
    elim (Bool-cases (any_edit part.edits)) [
      | inl t ↦
          rw t (
            quiet,
            taken ∙ ap (λ a. received a (record { theme = none; edits = part.edits })) themed,
          )
      | inr f ↦
          rw f
            (refl, themed ∙ ap (retweaked part.theme) (sym (merged_nothing p.tweaks part.edits f)))
    ]
  where
    retweaked : Option Str → Tweaks → Account
    retweaked o t = record { theme = or_old (known_theme o) p.theme; tweaks = t }
