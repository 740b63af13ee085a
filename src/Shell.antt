-- ===== src/Shell.antt =====
-- `App` of web/src/app.jsx, with the views that keep a state of their own across routes: the dashboard
-- and the settings. A view is kept while the next route shows it too, and mounted where it does not.
pub mod Opens
use orchis_foundry.Prelude.{
  Bool, true, false, not, Option, none, some, List, [], ◌∷◌, if◌then◌else◌, Str, codes, eqs,
}
use orchis_foundry.App.Route.{Route, to_view, View, dashboard, settings, view_of}
use orchis_foundry.Dashboard.{Dashboard, mounted}
use orchis_foundry.Settings.View.{SettingsView, first_view, routed}

-- The content of the split is what it is about.
pub record Shell : Type 0 where
  pub route : Route
  pub dash : Option Dashboard
  pub settings_view : Option SettingsView
  pub palette_open : Bool
  pub split_open : Bool
  pub split_content : Str

abbrev is_dashboard : View → Bool
is_dashboard dashboard = true
is_dashboard _ = false

abbrev is_settings : View → Bool
is_settings settings = true
is_settings _ = false

abbrev pub kept_dash : Option Dashboard → Route → Dashboard
kept_dash none r = mounted r
kept_dash (some d) r = d

pub kept_settings : Option SettingsView → Route → SettingsView
unfolding first_view routed
kept_settings none r = routed (first_view r) r
kept_settings (some v) r = routed v r

-- `navigate`, and the view that is rendered for the route.
pub navigate : Shell → Route → Shell
unfolding view_of kept_settings
navigate s r = record s {
  route = r;
  dash = if is_dashboard (view_of r) then some (kept_dash s.dash r) else none;
  settings_view = if is_settings (view_of r) then some (kept_settings s.settings_view r) else none;
}

-- The keys that `App` listens to, with Ctrl or Cmd, and the split.
pub data Event : Type 0 where
  key_k key_backslash close_split close_palette : Event
  go : Route → Event
  open_split : Str → Event

unfoldable pub step : Shell → Event → Shell
unfolding navigate eqs
step s key_k = record s { palette_open = not s.palette_open }
step s key_backslash =
    if eqs s.route.view (codes "repo") then record s { split_open = not s.split_open } else s
step s close_split = record s { split_open = false }
step s close_palette = record s { palette_open = false }
step s (go r) = navigate s r
step s (open_split c) = record s { split_content = c; split_open = true }
