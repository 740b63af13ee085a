-- ===== src/Settings/Preferences.antt =====
-- `PreferencesPanel`: the two switches that are saved to the account.
pub mod Saved
use orchis_foundry.Prelude.{
  Bool, true, false, not, Option, none, some, List, [], ◌∷◌, if◌then◌else◌, Str, codes, eqs,
}
use orchis_foundry.Api.{Result, done, failed}

-- A key of the preferences with its value; the values that are no Booleans are not `false`, and stand
-- as `true`.
pub record Pref : Type 0 where
  pub key : Str
  pub value : Bool

-- `none` while they are loaded.
pub record Preferences : Type 0 where
  pub prefs : Option (List Pref)

pub record Patch : Type 0 where
  pub key : Str
  pub value : Bool

pub data Event : Type 0 where
  loaded : Result (Option (List Pref)) → Event
  click : Str → Event

-- `{ ...p, [key]: val }`.
pub with_pref : List Pref → Str → Bool → List Pref
unfolding eqs
with_pref [] k v = record { key = k; value = v } ∷ []
with_pref (p ∷ ps) k v =
    let rest = with_pref ps k v in if eqs p.key k then record p { value = v } ∷ ps else p ∷ rest

-- `prefs[k] !== false`.
pub is_enabled : List Pref → Str → Bool
unfolding eqs
is_enabled [] k = true
is_enabled (p ∷ ps) k = if eqs p.key k then p.value else is_enabled ps k

abbrev loaded_or_none : Result (Option (List Pref)) → List Pref
loaded_or_none (done (some l)) = l
loaded_or_none _ = []

-- A click on a switch, `onChange(!value)`, which is not there while the preferences are loaded.
unfoldable pub clicked : Option (List Pref) → Str → Option (List Pref) × List Patch
unfolding is_enabled with_pref
clicked none k = (none, [])
clicked (some l) k = (
  some (with_pref l k (not (is_enabled l k))),
  record { key = k; value = not (is_enabled l k) } ∷ [],
)

unfoldable pub step : Preferences → Event → Preferences × List Patch
unfolding clicked
step s (loaded r) = (record { prefs = some (loaded_or_none r) }, [])
step s (click k) = let r = clicked s.prefs k in (record { prefs = r.0 }, r.1)

-- What is saved to the account by the patches, in their order.
abbrev pub after_patches : List Pref → List Patch → List Pref
after_patches l [] = l
after_patches l (p ∷ ps) = after_patches (with_pref l p.key p.value) ps
