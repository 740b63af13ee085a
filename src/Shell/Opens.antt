-- ===== src/Shell/Opens.antt =====
-- What a route opens, wherever it is taken: the panels of the settings with their forms, and the dialog of
-- the dashboard.
use orchis_foundry.Prelude.{
  Bool, true, false, not, ◌&&◌, ◌||◌, Option, none, some, [], ◌≡◌, ◌≢◌, Str,
}
use orchis_foundry.App.Route.{Route, View, dashboard, settings, view_of}
use orchis_foundry.Dashboard.{Dashboard, Dialog}
use orchis_foundry.Settings.View.{SettingsView, TabPanel, panel_of, tokens, ssh, webhooks}
use orchis_foundry.Shell.{Shell, navigate}

-- The panel that is shown, where the settings are.
abbrev shown_panel : Option SettingsView → Option TabPanel
shown_panel none = none
shown_panel (some v) = some (panel_of v.tab)

-- The form of a panel is wanted by the view, and by a route.
abbrev wants : SettingsView → TabPanel → Bool
wants v tokens = v.new_token
wants v ssh = v.new_key
wants v webhooks = v.new_hook
wants v _ = false

abbrev wanted : Option SettingsView → TabPanel → Bool
wanted none p = false
wanted (some v) p = wants v p

abbrev pub asks : Route → TabPanel → Bool
asks r tokens = r.new_token
asks r ssh = r.new_key
asks r webhooks = r.new_hook
asks r _ = false

-- The secret of a new token takes the place of the panel of the tokens.
abbrev has_secret : Option SettingsView → TabPanel → Bool
has_secret (some v) tokens = v.generated
has_secret _ _ = false

-- Whether the panel that is shown shows its form.
abbrev pub shows_form : Option SettingsView → Bool
shows_form none = false
shows_form (some v) = wants v (panel_of v.tab) && not (has_secret (some v) (panel_of v.tab))

abbrev has_dialog_in : Option Dialog → Bool
has_dialog_in none = false
has_dialog_in (some d) = true

-- Whether the dialog for a new repository is there.
abbrev pub has_dialog : Option Dashboard → Bool
has_dialog none = false
has_dialog (some d) = has_dialog_in d.dialog

-- Whether a dashboard that is there, or else a new one, shows the dialog.
abbrev shows_dialog : Option Dashboard → Route → Bool
shows_dialog none r = r.new_repo
shows_dialog (some d) r = has_dialog_in d.dialog

-- What is shown behind a route.
pub record Opens (s : Shell) (r : Route) : Type 0 where
  tab :
      (t : Str)
      → view_of r ≡ settings
      → r.tab ≡ some t
      → t ≢ []
      → shown_panel (navigate s r).settings_view ≡ some (panel_of t)
  no_tab :
      (w : SettingsView)
      → view_of r ≡ settings
      → r.tab ≡ none
      → s.settings_view ≡ some w
      → shown_panel (navigate s r).settings_view ≡ some (panel_of w.tab)
  at_first :
      view_of r ≡ settings
      → r.tab ≡ none
      → s.settings_view ≡ none
      → shown_panel (navigate s r).settings_view ≡ some tokens
  form :
      (p : TabPanel)
      → shown_panel (navigate s r).settings_view ≡ some p
      → shows_form (navigate s r).settings_view
        ≡ ((asks r p || wanted s.settings_view p) && not (has_secret s.settings_view p))
  dialog : view_of r ≡ dashboard → has_dialog (navigate s r).dash ≡ shows_dialog s.dash r
  elsewhere : view_of r ≢ settings → (navigate s r).settings_view ≡ none
