-- ===== src/App/Prefs.antt =====
-- The theme and the tweaks of `App`, with `useTweaks` of web/tweaks-panel.jsx: how they change, what is
-- saved to the account, and how they are loaded once. `localStorage` keeps the theme only. An object of
-- edits lacks the keys that are `none`. `setTweak` makes its `tweakchange` event at once, so the listener
-- of `App` sees `hydratingPrefs` as it is then.
pub mod Saved
use orchis_foundry.Prelude.{
  Bool, true, false, not, ◌&&◌, Option, none, some, List, [], ◌∷◌, ◌++◌, ◌||◌, if◌then◌else◌, Str,
  codes, eqs,
}

pub record Tweaks : Type 0 where
  pub accent : Str
  pub density : Str
  pub font : Str
  pub show_split_tip : Bool

-- TWEAK_DEFAULTS.
abbrev tweak_defaults : Tweaks
tweak_defaults = record {
  accent = codes "spring";
  density = codes "default";
  font = codes "geist";
  show_split_tip = true;
}

pub record Edits : Type 0 where
  pub accent : Option Str
  pub density : Option Str
  pub font : Option Str
  pub show_split_tip : Option Bool

abbrev pub no_edits : Edits
no_edits = record { accent = none; density = none; font = none; show_split_tip = none }

-- What the account holds, or what is sent to it.
pub record Partial : Type 0 where
  pub theme : Option Str
  pub edits : Edits

abbrev pub or_old {ℓ} : {A : Type ℓ} → Option A → A → A
or_old none old = old
or_old (some new) old = new

-- `{ ...prev, ...edits }`.
abbrev pub merged : Tweaks → Edits → Tweaks
merged t e = record {
  accent = or_old e.accent t.accent;
  density = or_old e.density t.density;
  font = or_old e.font t.font;
  show_split_tip = or_old e.show_split_tip t.show_split_tip;
}

pub record Prefs : Type 0 where
  pub theme : Str
  stored_theme : Option Str
  pub tweaks : Tweaks
  pub hydrating : Bool

-- The theme at first: the stored one, or that of the system.
abbrev pub initial : Option Str → Str → Prefs
initial none system = record {
  theme = system;
  stored_theme = none;
  tweaks = tweak_defaults;
  hydrating = false;
}
initial (some v) system = record {
  theme = if eqs v [] then system else v;
  stored_theme = some v;
  tweaks = tweak_defaults;
  hydrating = false;
}

-- `savePrefs`: the requests that it makes.
abbrev save_prefs : Prefs → Partial → List Partial
save_prefs p part = if p.hydrating then [] else part ∷ []

-- `setTweak`, with what the listener of `tweakchange` saves.
abbrev pub set_tweak : Prefs → Edits → Prefs × List Partial
set_tweak p e =
    (record p { tweaks = merged p.tweaks e }, save_prefs p (record { theme = none; edits = e }))

-- `setTheme`, with whether the storage takes the theme: where it does not, its error ends the handler
-- between the state and `savePrefs`.
abbrev set_theme : Prefs → Str → Bool → Prefs × List Partial
set_theme p v true = (
  record p { theme = v; stored_theme = some v },
  save_prefs p (record { theme = some v; edits = no_edits }),
)
set_theme p v false = (record p { theme = v }, [])

abbrev pub has_any {ℓ} : {A : Type ℓ} → Option A → Bool
has_any none = false
has_any (some x) = true

-- `Object.keys(tw).length`.
abbrev pub any_edit : Edits → Bool
any_edit e = has_any e.accent || has_any e.density || has_any e.font || has_any e.show_split_tip

abbrev pub hydrate_theme : Prefs → Option Str → Prefs
hydrate_theme p none = p
hydrate_theme p (some v) =
    if eqs v (codes "light") || eqs v (codes "dark")
    then record p { theme = v; stored_theme = some v }
    else p

-- The theme of an answer is set, and the storage is asked to take it.
abbrev has_theme : Option Str → Bool
has_theme none = false
has_theme (some v) = eqs v (codes "light") || eqs v (codes "dark")

-- An answer whose theme the storage does not take: the error leaves its tweaks out, and the timeout that
-- would end the hydration is not set.
abbrev broken_off : Prefs → Option Str → Prefs
broken_off p none = record p { hydrating = true }
broken_off p (some v) = record p { hydrating = true; theme = v }

pub data Event : Type 0 where
  pick_theme : Str → Bool → Event
  tweak : Edits → Event
  loaded : Option Partial → Bool → Event
  hydrated : Event

-- `loaded none` is a failed request, or an answer that is no object; `hydrated` is the end of the
-- timeout that the answer sets. A truth value says whether the storage takes the theme.
unfoldable pub step : Prefs → Event → Prefs × List Partial
unfolding eqs
step p (pick_theme v taken) = set_theme p v taken
step p (tweak e) = set_tweak p e
step p (loaded none taken) = (p, [])
step p (loaded (some part) taken) =
    let q = hydrate_theme (record p { hydrating = true }) part.theme in
    if not taken && has_theme part.theme
    then (broken_off p part.theme, [])
    else if any_edit part.edits
    then set_tweak q part.edits
    else (q, [])
step p hydrated = (record p { hydrating = false }, [])

unfoldable pub run : Prefs → List Event → Prefs × List Partial
unfolding step
run p [] = (p, [])
run p (e ∷ es) = let r = step p e in let rest = run r.0 es in (rest.0, r.1 ++ rest.1)
