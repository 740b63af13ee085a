-- ===== src/Nav.antt =====
-- `OrchisNav` of web/src/orchis-nav.jsx: whether the link to the admin console is shown.
pub mod Probe
use orchis_foundry.Prelude.{
  ℕ, Bool, true, false, not, ◌&&◌, ◌||◌, Option, none, some, List, [], ◌∷◌, if◌then◌else◌, Str,
  codes, eqs,
}
use orchis_foundry.Api.{Result, done, failed, Fetched, unreachable, answer, Response, ok}

-- The page: its host, and whether the browser is to save data.
pub record Place : Type 0 where
  pub hostname : Str
  pub save_data : Bool

-- `OrchisNav` with its flag `cancelled`.
pub record Nav : Type 0 where
  pub show_admin : Bool
  pub cancelled : Bool

pub data Request : Type 0 where
  get_admin_me : Request

-- The user of an answer has its `handle`, where there is one.
pub data Event : Type 0 where
  answered : Fetched (Option (Option Str)) → Event
  unmounted : Event

abbrev probes : Place → Bool
probes p = not (eqs p.hostname (codes "admin.orchis.ai")) && not p.save_data

abbrev pub mounted : Place → Nav × List Request
mounted p =
    (record { show_admin = false; cancelled = false }, if probes p then get_admin_me ∷ [] else [])

-- `me && me.handle`.
abbrev has_handle : Option (Option Str) → Bool
has_handle none = false
has_handle (some none) = false
has_handle (some (some h)) = not (eqs h [])

abbrev is_user : Result (Option (Option Str)) → Bool
is_user (done me) = has_handle me
is_user (failed e) = false

-- Whether the answer shows the link.
pub is_operator : Fetched (Option (Option Str)) → Bool
unfolding eqs
is_operator (unreachable e) = false
is_operator (answer r) = if ok r.status then is_user r.body else false

unfoldable pub step : Nav → Event → Nav × List Request
unfolding is_operator
step n (answered f) =
    (if not n.cancelled && is_operator f then record n { show_admin = true } else n, [])
step n unmounted = (record n { cancelled = true }, [])

abbrev links : List (Str × Str)
links =
    (codes "foundry", codes "https://foundry.orchis.ai")
    ∷ (codes "downloads", codes "https://downloads.orchis.ai")
    ∷ (codes "kicad", codes "https://kicad.orchis.ai")
    ∷ []
