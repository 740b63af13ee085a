-- ===== src/Dashboard.antt =====
-- `DashboardView` and `NewRepoModal` of web/src/views/dashboard.jsx: the inbox and the activity of the
-- user, and the dialog for a new repository. `window.OrchisAPI` is always there (data.jsx).
pub mod Created
use orchis_foundry.Prelude.{
  ℕ, ◌+◌, Bool, true, false, not, ◌&&◌, ◌||◌, Option, none, some, List, [], ◌∷◌, ◌++◌,
  if◌then◌else◌, length, leb, ltb, ◌==◌, Str, codes, eqs, trim,
}
use orchis_foundry.Api.{Result, done, failed}
use orchis_foundry.App.Route.{Route}
use orchis_foundry.Sidebar.{Item}

-- The state of `NewRepoModal`. `mount` tells an opening of the dialog from those before it.
pub record Dialog : Type 0 where
  pub mount : ℕ
  pub name : Str
  pub description : Str
  pub visibility : Str
  pub busy : Bool
  pub err : Str

abbrev new_dialog : ℕ → Dialog
new_dialog n = record {
  mount = n;
  name = [];
  description = [];
  visibility = codes "private";
  busy = false;
  err = [];
}

-- The activity stands for the rows that are shown.
pub record Dashboard : Type 0 where
  pub dialog : Option Dialog
  pub mounts : ℕ
  pub inbox : Option (List Item)
  activity : Option (List Str)

pub data Request : Type 0 where
  get_inbox get_activity load_repos : Request
  post_repo : ℕ → Str → Str → Str → Request
  go_repo : Str → Request

-- `posted` is the answer to the dialog `n`, with the id of the repository, and `reloaded` follows
-- `loadRepos`, however it ends. `notified` is the event "inbox.new" of the stream.
pub data Event : Type 0 where
  new_clicked close create notified : Event
  type_name type_description pick_visibility : Str → Event
  posted : ℕ → Result Str → Event
  reloaded : Str → Event
  got_inbox : Result (Option (List Item)) → Event
  got_activity : Result (Option (List Str)) → Event

abbrev pub create_failed : Str
create_failed =
    codes
      "Could not create repository. The name may already be taken, or it contains invalid characters."

-- `useState(!!(route && route.newRepo))` of a view that is mounted.
abbrev pub mounted : Route → Dashboard
mounted r = record {
  dialog = if r.new_repo then some (new_dialog 0) else none;
  mounts = if r.new_repo then 1 else 0;
  inbox = none;
  activity = none;
}

abbrev first_requests : List Request
first_requests = get_inbox ∷ get_activity ∷ []

-- `[A-Za-z0-9._-]`.
abbrev pub is_name_char : ℕ → Bool
is_name_char c =
    leb 65 c && leb c 90
    || leb 97 c && leb c 122
    || leb 48 c && leb c 57
    || c == 46
    || c == 95
    || c == 45

pub all_name_chars : Str → Bool
all_name_chars [] = true
all_name_chars (c ∷ s) = is_name_char c && all_name_chars s

-- `/^[A-Za-z0-9._-]{1,100}$/.test(name)`.
unfoldable pub is_valid : Str → Bool
unfolding all_name_chars
is_valid s = all_name_chars s && leb 1 (length s) && leb (length s) 100

abbrev in_dialog : Dashboard → Option Dialog → (Dialog → Dialog) → Dashboard
in_dialog s none f = s
in_dialog s (some d) f = record s { dialog = some (f d) }

abbrev open_dialog : Dashboard → Option Dialog → Dashboard
open_dialog s none = record s { dialog = some (new_dialog s.mounts); mounts = s.mounts + 1 }
open_dialog s (some d) = s

-- `create`, behind the test of its button.
unfoldable pub create_step : Dashboard → Option Dialog → Dashboard × List Request
unfolding is_valid trim
create_step s none = (s, [])
create_step s (some d) = if not (is_valid (trim d.name)) || d.busy then (s, []) else (
  record s { dialog = some (record d { err = []; busy = true }) },
  post_repo d.mount (trim d.name) d.description d.visibility ∷ [],
)

-- A dialog that is gone takes no answer.
abbrev pub not_created : ℕ → Dialog → Dialog
not_created n d = if d.mount == n then record d { err = create_failed; busy = false } else d

abbrev list_or_nil {ℓ} : {A : Type ℓ} → Result (Option (List A)) → Option (List A)
list_or_nil (done o) = o
list_or_nil (failed e) = some []

unfoldable pub step : Dashboard → Event → Dashboard × List Request
unfolding create_step
step s new_clicked = (open_dialog s s.dialog, [])
step s close = (record s { dialog = none }, [])
step s (type_name t) = (in_dialog s s.dialog (λ d. record d { name = t }), [])
step s (type_description t) = (in_dialog s s.dialog (λ d. record d { description = t }), [])
step s (pick_visibility t) = (in_dialog s s.dialog (λ d. record d { visibility = t }), [])
step s create = create_step s s.dialog
step s (posted n (done i)) = (s, load_repos ∷ [])
step s (posted n (failed e)) = (in_dialog s s.dialog (not_created n), [])
step s (reloaded i) = (record s { dialog = none }, go_repo i ∷ [])
step s notified = (s, get_inbox ∷ [])
step s (got_inbox r) = (record s { inbox = list_or_nil r }, [])
step s (got_activity r) = (record s { activity = list_or_nil r }, [])

-- `greeting`, at an hour of the day.
abbrev greeting : ℕ → Str
greeting h =
    if ltb h 12
    then codes "Good morning"
    else if ltb h 18
    then codes "Good afternoon"
    else codes "Good evening"
