-- ===== src/App/Route.antt =====
-- Routes, the objects that `navigate` takes, and the view that `App` shows for each.
use orchis_foundry.Prelude.{ℕ, Bool, false, Option, none, Str, codes, eqs, if◌then◌else◌}

-- A field that the object lacks is `none`, or `false` where the views read it as a flag.
pub record Route : Type 0 where
  pub view : Str
  pub repo : Option Str
  pub pr : Option ℕ
  pub file : Option Str
  pub q : Option Str
  pub sha : Option Str
  pub handle : Option Str
  pub tab : Option Str
  pub new_token : Bool
  pub new_key : Bool
  pub new_hook : Bool
  pub new_repo : Bool

-- `{ view }`.
abbrev pub to_view : Str → Route
to_view v = record {
  view = v;
  repo = none;
  pr = none;
  file = none;
  q = none;
  sha = none;
  handle = none;
  tab = none;
  new_token = false;
  new_key = false;
  new_hook = false;
  new_repo = false;
}

pub data View : Type 0 where
  dashboard prs pr search newpr commit user settings admin repo : View

-- The ladder under `// Render current view`; the last `else` is the dashboard.
unfoldable pub view_of : Route → View
unfolding eqs
view_of r =
    if eqs r.view (codes "home")
    then dashboard
    else if eqs r.view (codes "prs")
    then prs
    else if eqs r.view (codes "pr")
    then pr
    else if eqs r.view (codes "search")
    then search
    else if eqs r.view (codes "newpr")
    then newpr
    else if eqs r.view (codes "commit")
    then commit
    else if eqs r.view (codes "user")
    then user
    else if eqs r.view (codes "settings")
    then settings
    else if eqs r.view (codes "admin")
    then admin
    else if eqs r.view (codes "repo")
    then repo
    else dashboard
