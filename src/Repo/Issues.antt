-- ===== src/Repo/Issues.antt =====
-- `IssuesSplit` and `IssueDetail`: the issues of the repository that the split is about, the form for a new
-- one, and one issue with its comments. An answer says what its request was for.
pub mod Asked
use orchis_foundry.Prelude.{
  ℕ, suc, ◌+◌, Bool, true, false, not, ◌&&◌, ◌||◌, Option, none, some, List, [], ◌∷◌, ◌++◌,
  if◌then◌else◌, ◌==◌, Str, codes, eqs, trim,
}
use orchis_foundry.Api.{Result, done, failed}

pub record Issue : Type 0 where
  pub number : ℕ
  pub title : Str
  pub closed : Bool

-- The state of `IssueDetail` for the issue `num`. `mount` tells it from those that were open before.
pub record Detail : Type 0 where
  pub mount : ℕ
  pub num : ℕ
  pub issue : Option Issue
  pub comments : List Str
  pub draft : Str
  pub busy : Bool

-- `detail` is there where an issue is selected. `items` is `none` until the first answer.
pub record Issues : Type 0 where
  pub repo : Str
  pub items : Option (List Issue)
  pub detail : Option Detail
  pub mounts : ℕ
  pub creating : Bool
  pub title : Str
  pub body : Str
  pub busy : Bool

abbrev pub new_issues : Str → Issues
new_issues repo = record {
  repo = repo;
  items = none;
  detail = none;
  mounts = 0;
  creating = false;
  title = [];
  body = [];
  busy = false;
}

-- `patch_issue` says whether the issue is to be closed.
pub data Request : Type 0 where
  get_issues : Str → Request
  post_issue : Str → Str → Str → Request
  get_issue get_comments : Str → ℕ → Request
  post_comment : ℕ → Str → ℕ → Str → Request
  patch_issue : ℕ → Str → ℕ → Bool → Request

-- `show_repo` is the split that is opened for a repository. `commented` and `toggled` name the detail
-- that asked.
pub data Event : Type 0 where
  show_repo : Str → Event
  new_clicked cancel create back comment toggle_state : Event
  type_title type_body type_draft : Str → Event
  select : ℕ → Event
  listed : Result (Option (List Issue)) → Event
  created : Str → Bool → Event
  got_issue : ℕ → Result Issue → Event
  got_comments : ℕ → Result (List Str) → Event
  commented : ℕ → Str → ℕ → Bool → Event
  toggled : ℕ → Result Issue → Event

-- `load`.
abbrev load_issue : Str → ℕ → List Request
load_issue repo n = get_issue repo n ∷ get_comments repo n ∷ []

abbrev list_or_nil : Result (Option (List Issue)) → Option (List Issue)
list_or_nil (done o) = o
list_or_nil (failed e) = some []

abbrev issue_or_none : Result Issue → Option Issue
issue_or_none (done i) = some i
issue_or_none (failed e) = none

abbrev comments_or_nil : Result (List Str) → List Str
comments_or_nil (done l) = l
comments_or_nil (failed e) = []

-- A change of the detail that is numbered `m`; one that is gone takes none.
abbrev in_detail : Issues → Option Detail → ℕ → (Detail → Detail) → Issues
in_detail s none m f = s
in_detail s (some d) m f = if d.mount == m then record s { detail = some (f d) } else s

-- The requests of the effect on the repository, and on the number of an issue that is shown.
abbrev pub split_effects : Str → Option Detail → List Request
split_effects repo none = get_issues repo ∷ []
split_effects repo (some d) = get_issue repo d.num ∷ get_comments repo d.num ∷ get_issues repo ∷ []

-- The state when the split is opened, with its requests.
abbrev pub mounted : Str → Issues × List Request
mounted repo = (new_issues repo, split_effects repo none)

-- `items != null ? items : []`.
abbrev pub or_nil : Option (List Issue) → List Issue
or_nil none = []
or_nil (some l) = l

pub has_number : List Issue → ℕ → Bool
has_number [] n = false
has_number (i ∷ is) n = i.number == n || has_number is n

-- The list and the form, where no issue is selected; the form is there while it is open.
pub split_step : Issues → Event → Issues × List Request
unfolding has_number eqs trim
split_step s new_clicked = (record s { creating = true }, [])
split_step s cancel =
    (if s.creating then record s { creating = false; title = []; body = [] } else s, [])
split_step s (type_title t) = (if s.creating then record s { title = t } else s, [])
split_step s (type_body t) = (if s.creating then record s { body = t } else s, [])
split_step s create =
    if not s.creating || eqs (trim s.title) [] || s.busy
    then (s, [])
    else (record s { busy = true }, post_issue s.repo (trim s.title) (trim s.body) ∷ [])
split_step s (select n) =
    if has_number (or_nil s.items) n
    then (
      record s {
        mounts = suc s.mounts;
        detail = some (record {
          mount = s.mounts;
          num = n;
          issue = none;
          comments = [];
          draft = [];
          busy = false;
        });
      },
      load_issue s.repo n,
    )
    else (s, [])
split_step s _ = (s, [])

abbrev pub toggle_request : Str → Detail → Option Issue → List Request
toggle_request repo d none = []
toggle_request repo d (some i) = patch_issue d.mount repo d.num (not i.closed) ∷ []

abbrev pub has_issue : Option Issue → Bool
has_issue none = false
has_issue (some i) = true

-- One issue; its field and its buttons are there once it is loaded, the way back to the list too.
pub detail_step : Issues → Detail → Event → Issues × List Request
unfolding eqs trim
detail_step s d (type_draft t) =
    (if has_issue d.issue then record s { detail = some (record d { draft = t }) } else s, [])
detail_step s d back =
    if has_issue d.issue then (record s { detail = none }, get_issues s.repo ∷ []) else (s, [])
detail_step s d comment =
    if not (has_issue d.issue) || eqs (trim d.draft) [] || d.busy then (s, []) else (
      record s { detail = some (record d { busy = true }) },
      post_comment d.mount s.repo d.num (trim d.draft) ∷ [],
    )
detail_step s d toggle_state =
    if not (has_issue d.issue) || d.busy
    then (s, [])
    else (record s { detail = some (record d { busy = true }) }, toggle_request s.repo d d.issue)
detail_step s d _ = (s, [])

pub at_screen : Issues → Event → Option Detail → Issues × List Request
unfolding split_step detail_step
at_screen s e none = split_step s e
at_screen s e (some d) = detail_step s d e

unfoldable pub step : Issues → Event → Issues × List Request
unfolding at_screen eqs
step s (show_repo r) =
    if eqs s.repo r then (s, []) else (record s { repo = r }, split_effects r s.detail)
step s (listed r) = (record s { items = list_or_nil r }, [])
step s (created r true) =
    (record s { title = []; body = []; creating = false; busy = false }, get_issues r ∷ [])
step s (created r false) = (record s { busy = false }, [])
step s (got_issue m r) = (in_detail s s.detail m (λ d. record d { issue = issue_or_none r }), [])
step s (got_comments m r) =
    (in_detail s s.detail m (λ d. record d { comments = comments_or_nil r }), [])
step s (commented m r n true) =
    (in_detail s s.detail m (λ d. record d { draft = []; busy = false }), load_issue r n)
step s (commented m r n false) = (in_detail s s.detail m (λ d. record d { busy = false }), [])
step s (toggled m (done i)) =
    (in_detail s s.detail m (λ d. record d { issue = some i; busy = false }), [])
step s (toggled m (failed e)) = (in_detail s s.detail m (λ d. record d { busy = false }), [])
step s e = at_screen s e s.detail
