-- ===== src/Tests/App.antt =====
-- The preferences at concrete changes.
use orchis_foundry.Prelude.{
  none, some, Option, Str, true, List, [], ◌∷◌, ◌≡◌, ◌↔◌, false, refl, codes,
}
use orchis_foundry.App.Prefs.{
  no_edits, Partial, Prefs, initial, Event, pick_theme, tweak, loaded, run,
}
use orchis_foundry.App.Prefs.Saved.{received_all, account_of, taken_theme, run-received_all}
use orchis_foundry.Api.{done, failed, Fetched, answer, get}
use orchis_foundry.App.SignIn.{loading, authed, signin, User, Me, hydrate, root}
use orchis_foundry.App.SignIn.Gate.{status_of, root_lem}

prefs : Unit {0}
unfolding run
prefs = tt

abbrev at_first : Prefs
at_first = initial none (codes "light")

abbrev changes : List Event
changes =
    pick_theme (codes "dark") true ∷ tweak (record no_edits { accent = some (codes "ember") }) ∷ []

run-received_all_example : received_all (account_of at_first) (run at_first changes).1 ≡ record {
  theme = taken_theme at_first.theme changes;
  tweaks = (run at_first changes).0.tweaks;
}
run-received_all_example = run-received_all changes at_first (tt, (tt, tt)) refl

abbrev saved : Partial
saved = record {
  theme = some (codes "light");
  edits = record no_edits { font = some (codes "mono") };
}

-- A theme that is picked before the answer is saved and then taken back on the page.
early_change :
    ((run at_first (pick_theme (codes "dark") true ∷ loaded (some saved) true ∷ [])).0.theme
      ≡ codes "light")
    × ((run at_first (pick_theme (codes "dark") true ∷ loaded (some saved) true ∷ [])).1
        ≡ record { theme = some (codes "dark"); edits = no_edits } ∷ [])
unfolding prefs
early_change = (refl, refl)

abbrev mock_user : User
mock_user = record {
  id = codes "me";
  name = codes "Mira";
  handle = codes "mira";
  initials = codes "MI";
  color = codes "red";
  avatar_url = [];
  bio = [];
  is_admin = false;
}

-- The server fails.
abbrev broken : Fetched (Option Me)
broken = answer (record { status = 500; body = done none; content_length = none })

abbrev me_path : Str
me_path = codes "/v1/me"

root_lem_example :
    (((root mock_user [] broken none).state ≡ signin) ↔ (status_of broken ≡ some 401))
    × (((root mock_user [] broken none).state ≡ loading) ↔ (get me_path broken ≡ done none))
    × ((m : Me)
        → get me_path broken ≡ done (some m)
        → ((root mock_user [] broken none).state ≡ authed)
          × ((root mock_user [] broken none).user ≡ hydrate mock_user m))
    × ((e : Str)
        → get me_path broken ≡ failed e
        → ((root mock_user [] broken none).user ≡ mock_user)
          × ((root mock_user [] broken none).repos ≡ []))
root_lem_example = root_lem me_path mock_user [] broken none
