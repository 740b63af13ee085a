-- ===== src/Settings/Preferences/Saved.antt =====
-- The page and the account.
use orchis_foundry.Prelude.{not, some, List, [], ◌∷◌, ◌≡◌, refl, All, session}
use orchis_foundry.Settings.Preferences.{
  Pref, Event, loaded, click, with_pref, is_enabled, step, clicked, after_patches,
}

abbrev IsClick : Event → Type 0
IsClick (click k) = Unit
IsClick (loaded r) = ⊥

-- An account that had the preferences of the page has them again when it has taken the patches.
session-patched :
    (es : List Event) (l : List Pref)
    → All IsClick es
    → (session step (record { prefs = some l }) es).0.prefs
      ≡ some (after_patches l (session step (record { prefs = some l }) es).1)
unfolding session step clicked
session-patched [] l h = refl
session-patched (click k ∷ es) l (_, h) =
    session-patched es (with_pref l k (not (is_enabled l k))) h
session-patched (loaded r ∷ es) l h = absurd h.0
