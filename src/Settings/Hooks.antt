-- ===== src/Settings/Hooks.antt =====
-- `WebhooksPanel`: the webhooks of the user's repositories, the form for a new one, and the test of one.
-- The repositories that the user owns are given.
pub mod Posts
use orchis_foundry.Prelude.{
  ℕ, Bool, true, false, not, ◌&&◌, ◌||◌, Option, none, some, List, [], ◌∷◌, ◌++◌, if◌then◌else◌,
  filter, length, ◌==◌, Str, codes, eqs, trim, includes,
}
use orchis_foundry.Api.{Result, done, failed}

pub record Hook : Type 0 where
  pub id : Str
  pub url : Str
  pub events : List Str
  pub repo : Str
  pub status : Str

-- `hooks` is `none` until the first answer, and `is_open` is `newHook`. `tested` is empty, or the hook
-- whose test was sent last.
pub record Hooks : Type 0 where
  hooks : Option (List Hook)
  pub is_open : Bool
  pub url : Str
  pub repo : Str
  pub events : List Str
  pub secret : Str
  pub busy : Bool
  pub err : Str
  pub tested : Str
  pub owned_count : ℕ

pub data Request : Type 0 where
  get_hooks : Request
  post_hook : Str → Str → List Str → Str → Request
  post_test delete_hook : Str → Str → Request

-- `timer` is the one that a test that was sent starts; `owned_changed` is a render with these repositories.
pub data Event : Type 0 where
  new_clicked cancel add timer : Event
  type_url type_secret pick_repo toggle : Str → Event
  test remove : Hook → Event
  listed : Result (Option (List Hook)) → Event
  added removed : Bool → Event
  test_answered : Str → Bool → Event
  owned_changed : List Str → Event

abbrev pub no_repo : Str
no_repo = codes "Create a repo first — webhooks attach to a repo."

abbrev pub no_events : Str
no_events = codes "Pick at least one event."

abbrev pub add_failed : Str
add_failed = codes "Could not create webhook — check the URL is http(s) and you own the repo."

abbrev only_push : List Str
only_push = codes "push" ∷ []

-- `ownedRepos[0] ? ownedRepos[0].id : ""`.
abbrev pub first_repo : List Str → Str
first_repo [] = []
first_repo (r ∷ rs) = r

abbrev pub new_hooks : List Str → Hooks
new_hooks owned = record {
  hooks = none;
  is_open = false;
  url = [];
  repo = first_repo owned;
  events = only_push;
  secret = [];
  busy = false;
  err = [];
  tested = [];
  owned_count = length owned;
}

-- The effect on `ownedRepos.length`.
abbrev pub with_owned : Hooks → List Str → Hooks
with_owned s owned = if s.owned_count == length owned then s else record s {
  owned_count = length owned;
  repo = if eqs s.repo [] then first_repo owned else s.repo;
}

unfoldable pub toggle_event : List Str → Str → List Str
unfolding includes eqs
toggle_event evs e = if includes evs e then filter (λ x. not (eqs x e)) evs else evs ++ e ∷ []

-- `add`, behind the test of its button.
unfoldable pub add_hook : Hooks → Hooks × List Request
unfolding eqs trim
add_hook s =
    if eqs s.url [] || eqs s.repo [] || s.busy
    then (s, [])
    else if eqs s.repo []
    then (record s { err = no_repo }, [])
    else elim s.events [
      | [] ↦ (record s { err = no_events }, [])
      | e ∷ es ↦ (
        record s { err = []; busy = true },
        post_hook s.repo (trim s.url) s.events (trim s.secret) ∷ [],
      )
    ]

abbrev list_or_nil : Result (Option (List Hook)) → Option (List Hook)
list_or_nil (done o) = o
list_or_nil (failed e) = some []

-- The form is there where `is_open` is set.
unfoldable pub step : Hooks → Event → Hooks × List Request
unfolding add_hook toggle_event
step s new_clicked = (record s { err = []; is_open = true }, [])
step s cancel = (if s.is_open then record s { is_open = false; err = [] } else s, [])
step s (type_url t) = (if s.is_open then record s { url = t } else s, [])
step s (type_secret t) = (if s.is_open then record s { secret = t } else s, [])
step s (pick_repo r) = (if s.is_open then record s { repo = r } else s, [])
step s (toggle e) = (if s.is_open then record s { events = toggle_event s.events e } else s, [])
step s add = if s.is_open then add_hook s else (s, [])
step s (test w) = (record s { tested = [] }, post_test w.repo w.id ∷ [])
step s (remove w) = (s, delete_hook w.repo w.id ∷ [])
step s (listed r) = (record s { hooks = list_or_nil r }, [])
step s (added true) = (
  record s { url = []; secret = []; events = only_push; is_open = false; busy = false },
  get_hooks ∷ [],
)
step s (added false) = (record s { err = add_failed; busy = false }, [])
step s (removed ok) = (s, if ok then get_hooks ∷ [] else [])
step s (test_answered i ok) = (if ok then record s { tested = i } else s, [])
step s (owned_changed owned) = (with_owned s owned, [])
step s timer = (record s { tested = [] }, [])
