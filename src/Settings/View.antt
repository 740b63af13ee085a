-- ===== src/Settings/View.antt =====
-- `DevSettingsView` and `AdminView`: the tabs, and what the route opens.
use orchis_foundry.Prelude.{
  [], Bool, false, ◌||◌, Option, none, some, if◌then◌else◌, Str, codes, eqs,
}
use orchis_foundry.App.Route.{Route}

-- `generated` tells whether `generatedToken` is set; `Settings.Tokens` has the token itself.
pub record SettingsView : Type 0 where
  pub tab : Str
  pub new_token : Bool
  pub new_key : Bool
  pub new_hook : Bool
  pub generated : Bool

-- `route.tab || "tokens"`, and a tab that is kept where the route has none.
unfoldable pub tab_or : Option Str → Str → Str
unfolding eqs
tab_or none t = t
tab_or (some s) t = if eqs s [] then t else s

-- The first state.
unfoldable pub first_view : Route → SettingsView
unfolding tab_or
first_view r = record {
  tab = tab_or r.tab (codes "tokens");
  new_token = r.new_token;
  new_key = r.new_key;
  new_hook = r.new_hook;
  generated = false;
}

-- The effect of `[route]`.
unfoldable pub routed : SettingsView → Route → SettingsView
unfolding tab_or
routed v r = record v {
  tab = tab_or r.tab v.tab;
  new_token = r.new_token || v.new_token;
  new_key = r.new_key || v.new_key;
  new_hook = r.new_hook || v.new_hook;
}

-- `setTab`, and what the panels set.
pub data Event : Type 0 where
  pick_tab : Str → Event
  set_token set_key set_hook set_generated : Bool → Event

abbrev pub step : SettingsView → Event → SettingsView
step v (pick_tab t) = record v { tab = t }
step v (set_token b) = record v { new_token = b }
step v (set_key b) = record v { new_key = b }
step v (set_hook b) = record v { new_hook = b }
step v (set_generated b) = record v { generated = b }

-- The panel of a tab.
pub data TabPanel : Type 0 where
  account tokens ssh security scanner webhooks apps preferences nothing : TabPanel

unfoldable pub panel_of : Str → TabPanel
unfolding eqs
panel_of t =
    if eqs t (codes "account")
    then account
    else if eqs t (codes "security")
    then security
    else if eqs t (codes "tokens")
    then tokens
    else if eqs t (codes "ssh")
    then ssh
    else if eqs t (codes "scanner")
    then scanner
    else if eqs t (codes "webhooks")
    then webhooks
    else if eqs t (codes "apps")
    then apps
    else if eqs t (codes "preferences")
    then preferences
    else nothing
