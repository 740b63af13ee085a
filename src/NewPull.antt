-- ===== src/NewPull.antt =====
-- `NewPRView` of web/src/views/newpr.jsx: the choice of a repository and two branches, their comparison,
-- and the pull request that is opened. `first` is the repository of the route, empty without one.
-- `window.OrchisAPI` is always there (data.jsx).
pub mod Compared
pub mod Title
use orchis_foundry.Prelude.{
  ℕ, suc, Bool, true, false, not, ◌&&◌, ◌||◌, Option, none, some, List, [], ◌∷◌, ◌++◌,
  if◌then◌else◌, ltb, ◌==◌, Str, codes, eqs, trim, split,
}
use orchis_foundry.Api.{Result, done, failed}

pub record Branch : Type 0 where
  pub name : Str
  pub is_default : Bool

-- A comparison, with the messages of its commits.
pub record Comparison : Type 0 where
  pub ahead_by : ℕ
  pub messages : List Str

-- What a comparison is of.
pub record Pair : Type 0 where
  pub repo : Str
  pub base : Str
  pub head : Str

-- `pair` is what the last effect compares, `none` where it returned at once; a request that is not the
-- one numbered `asked` is cancelled.
pub record NewPull : Type 0 where
  pub repo : Str
  pub repos : List Str
  pub branches : List Branch
  pub base : Str
  pub head : Str
  pub cmp : Option Comparison
  pub title : Str
  pub body : Str
  reviewer : Str
  pub busy : Bool
  pub err : Str
  pub title_touched : Bool
  pub pair : Option Pair
  pub asked : ℕ

pub data Request : Type 0 where
  get_repos : Request
  get_branches : Str → Request
  get_compare : ℕ → Pair → Request
  post_pull : Str → Str → Str → Str → Str → Request
  post_review : Str → Str → Str → Request
  go_pull : Str → Str → Request

-- `branches_got` brings the answer for a repository. The effect that asked for it saw no base, so `!base` holds in its answer.
-- `created` brings the id of the pull request for the repository and the reviewer of the click, and
-- `reviewed` follows the request for a review, however it ends.
pub data Event : Type 0 where
  pick_repo pick_base pick_head type_title type_body type_reviewer : Str → Event
  create : Event
  repos_got : Result (Option (List Str)) → Event
  branches_got : Str → Result (Option (List Branch)) → Event
  compared : ℕ → Result Comparison → Event
  created : Str → Str → Result Str → Event
  reviewed : Str → Str → Event

abbrev pub create_failed : Str
create_failed =
    codes
      "Could not open the PR — the head branch may have no new commits, or you lack write access."

-- `repo && base && head && base !== head`.
unfoldable pub can_compare : Str → Str → Str → Bool
unfolding eqs
can_compare repo base head = not (eqs repo [] || eqs base [] || eqs head [] || eqs base head)

abbrev pub or_nil {ℓ} : {A : Type ℓ} → Option (List A) → List A
or_nil none = []
or_nil (some l) = l

-- `message.split("\n")[0]`.
abbrev first_part : List Str → Str
first_part [] = []
first_part (l ∷ ls) = l

unfoldable subject : Str → Str
unfolding split
subject m = first_part (split 10 m)

-- The effect of `[repo, base, head]`.
unfoldable pub compare_effect : NewPull → NewPull × List Request
unfolding can_compare
compare_effect s =
    if can_compare s.repo s.base s.head
    then (
      record s {
        pair = some (record { repo = s.repo; base = s.base; head = s.head });
        asked = suc s.asked;
      },
      get_compare (suc s.asked) (record { repo = s.repo; base = s.base; head = s.head }) ∷ [],
    )
    else (record s { cmp = none; pair = none; asked = suc s.asked }, [])

-- The effects of `[repo]`.
unfoldable pub repo_effects : Str → List Request
unfolding eqs
repo_effects repo = if eqs repo [] then get_repos ∷ [] else get_branches repo ∷ []

abbrev pub new_pull : Str → Str → NewPull
new_pull repo head = record {
  repo = repo;
  repos = [];
  branches = [];
  base = [];
  head = head;
  cmp = none;
  title = [];
  body = [];
  reviewer = [];
  busy = false;
  err = [];
  title_touched = false;
  pair = none;
  asked = 0;
}

-- The view as it is mounted, with the repository and the head of the route.
unfoldable pub mounted : Str → Str → NewPull × List Request
unfolding compare_effect repo_effects
mounted repo head = let r = compare_effect (new_pull repo head) in (r.0, repo_effects repo ++ r.1)

-- The first default branch.
abbrev pub default_of : List Branch → Option Str
default_of [] = none
default_of (b ∷ bs) = if b.is_default then some b.name else default_of bs

abbrev pub with_base : NewPull → Option Str → NewPull
with_base s none = s
with_base s (some b) = record s { base = b }

-- `setBranches`, and the base that is the first default branch.
abbrev pub branched : NewPull → List Branch → NewPull
branched s bs = with_base (record s { branches = bs }) (default_of bs)

-- The effect after an event, where a part of what is compared has changed.
unfoldable pub settled : NewPull → NewPull → NewPull × List Request
unfolding compare_effect eqs
settled s t =
    if eqs s.repo t.repo && eqs s.base t.base && eqs s.head t.head
    then (t, [])
    else compare_effect t

pub picked : NewPull → Str → NewPull × List Request
unfolding settled repo_effects eqs
picked s r =
    let t = settled s (record s { repo = r; base = []; head = [] }) in
    (t.0, (if eqs s.repo r then [] else repo_effects r) ++ t.1)

abbrev is_ahead : Option Comparison → Bool
is_ahead none = false
is_ahead (some c) = ltb 0 c.ahead_by

-- Whether the form with the title is there.
pub shows_form : NewPull → Bool
unfolding can_compare
shows_form s = can_compare s.repo s.base s.head && is_ahead s.cmp

-- The title that a comparison suggests.
abbrev suggested : Str → List Str → Str
suggested title [] = title
suggested title (m ∷ ms) = subject m

abbrev pub has_pair {ℓ} : {A : Type ℓ} → Option A → Bool
has_pair none = false
has_pair (some a) = true

-- Whether the answer to the comparison numbered `n` is taken.
unfoldable pub takes : NewPull → ℕ → Bool
takes s n = n == s.asked && has_pair s.pair

unfoldable pub took : NewPull → Result Comparison → NewPull
unfolding subject
took s (done c) = record s {
  cmp = some c;
  title = if s.title_touched then s.title else suggested s.title c.messages;
}
took s (failed e) = record s { cmp = none }

-- `create`, behind the test of its button.
unfoldable pub create_step : NewPull → NewPull × List Request
unfolding shows_form can_compare eqs trim
create_step s =
    if shows_form s && not (s.busy || eqs (trim s.title) [])
    then (
      record s { err = []; busy = true },
      post_pull s.repo (trim s.title) s.head s.base s.body ∷ [],
    )
    else (s, [])

-- What follows the new pull request `i`, with the reviewer of the click.
pub opened : Str → Str → Str → List Request
unfolding eqs trim
opened repo reviewer i =
    if eqs (trim reviewer) [] then go_pull i repo ∷ [] else post_review repo i (trim reviewer) ∷ []

module _ (first : Str) where
  -- The repository can be picked where the route has none, and the branches where there is one.
  unfoldable pub step : NewPull → Event → NewPull × List Request
  unfolding picked settled create_step took takes shows_form repo_effects opened eqs
  step s (pick_repo r) = if eqs first [] then picked s r else (s, [])
  step s (pick_base b) = if eqs s.repo [] then (s, []) else settled s (record s { base = b })
  step s (pick_head h) = if eqs s.repo [] then (s, []) else settled s (record s { head = h })
  step s (type_title t) =
      (if shows_form s then record s { title = t; title_touched = true } else s, [])
  step s (type_body t) = (if shows_form s then record s { body = t } else s, [])
  step s (type_reviewer t) = (if shows_form s then record s { reviewer = t } else s, [])
  step s create = create_step s
  step s (repos_got (done o)) = (record s { repos = or_nil o }, [])
  step s (repos_got (failed e)) = (s, [])
  step s (branches_got r (done o)) = settled s (branched s (or_nil o))
  step s (branches_got r (failed e)) = (s, [])
  step s (compared n r) = (if takes s n then took s r else s, [])
  step s (created r v (done i)) = (s, opened r v i)
  step s (created r v (failed e)) = (record s { err = create_failed; busy = false }, [])
  step s (reviewed r i) = (s, go_pull i r ∷ [])
