-- ===== src/Tests/Shell.antt =====
-- The application at a concrete state.
use orchis_foundry.Prelude.{◌∷◌, map, take, true, false, none, some, [], ◌≡◌, refl, codes}
use orchis_foundry.App.Route.{Route, to_view}
use orchis_foundry.Palette.Actions.{static_actions}
use orchis_foundry.Dashboard.{mounted, is_valid}
use orchis_foundry.Settings.View.{panel_of}
use orchis_foundry.Shell.{Shell, navigate, step}
use orchis_foundry.Shell.Opens.{Opens, shows_form, has_dialog}

abbrev at_home : Shell
at_home = record {
  route = to_view (codes "home");
  dash = some (mounted (to_view (codes "home")));
  settings_view = none;
  palette_open = true;
  split_open = false;
  split_content = [];
}

-- The route of the first action.
abbrev token_route : Route
token_route = record (to_view (codes "settings")) { tab = some (codes "tokens"); new_token = true }

first_action : map (λ a. a.target) (take 1 static_actions) ≡ token_route ∷ []
first_action = refl

token_form : shows_form (navigate at_home token_route).settings_view ≡ true
unfolding step panel_of
token_form = refl

abbrev repo_route : Route
repo_route = record (to_view (codes "home")) { new_repo = true }

-- The action for a new repository opens nothing where the dashboard is shown.
no_dialog : has_dialog (navigate at_home repo_route).dash ≡ false
unfolding step
no_dialog = refl

names :
    (is_valid (codes "kicad-mcp") ≡ true) × (is_valid (codes "a b") ≡ false) × (is_valid [] ≡ false)
unfolding is_valid
names = (refl, refl, refl)
