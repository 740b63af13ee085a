-- ===== src/Repo/Proposals.antt =====
-- `ProposalsView`: the changes that are proposed for a repository, and their acceptance or rejection.
-- The role of the user in the repository is given, empty without one.
pub mod Allowed
use orchis_foundry.Prelude.{
  Bool, true, false, not, ◌&&◌, Option, none, some, List, [], ◌∷◌, ◌++◌, if◌then◌else◌, Str, codes,
  eqs, includes,
}
use orchis_foundry.Api.{Result, done, failed}

-- A proposal; the number of its pull request is its text.
pub record Proposal : Type 0 where
  pub id : Str
  pub status : Str
  pub pull_number : Option Str

pub data Verb : Type 0 where
  accept reject : Verb

-- `open` is the proposal that is unfolded. `items` is `none` until the first answer.
pub record Proposals : Type 0 where
  pub items : Option (List Proposal)
  pub opened : Option Str
  pub busy : Bool
  pub note : Str

abbrev new_proposals : Proposals
new_proposals = record { items = none; opened = none; busy = false; note = [] }

pub data Request : Type 0 where
  get_proposals : Request
  post_verb : Str → Verb → Request
  go_pull : Str → Request

-- The answer to an acceptance.
pub record Accepted : Type 0 where
  pub branch : Str
  pub pull_number : Option Str

pub data Event : Type 0 where
  listed : Result (Option (List Proposal)) → Event
  toggle : Str → Event
  act : Verb → Str → Event
  accept_answered : Option Accepted → Event
  reject_answered : Bool → Event
  open_pull : Str → Event

-- `canWrite`.
pub can_write : Str → Bool
unfolding includes
can_write role = includes (codes "owner" ∷ codes "admin" ∷ codes "write" ∷ []) role

abbrev or_nil : Option (List Proposal) → List Proposal
or_nil none = []
or_nil (some l) = l

abbrev pub shown_proposals : Proposals → List Proposal
shown_proposals s = or_nil s.items

abbrev list_or_nil : Result (Option (List Proposal)) → Option (List Proposal)
list_or_nil (done o) = o
list_or_nil (failed e) = some []

pub is_unfolded : Option Str → Str → Bool
unfolding eqs
is_unfolded none i = false
is_unfolded (some j) i = eqs j i

-- Whether the buttons of the proposal `i` are shown: its row is there, unfolded and pending.
pub offers : List Proposal → Str → Bool
unfolding eqs
offers [] i = false
offers (p ∷ ps) i =
    let rest = offers ps i in if eqs p.id i && eqs p.status (codes "pending") then true else rest

-- The pull request that the row of a proposal without such buttons opens.
pub pull_of : Bool → List Proposal → Str → Option Str
unfolding eqs
pull_of writes [] i = none
pull_of writes (p ∷ ps) i =
    let rest = pull_of writes ps i in
    if eqs p.id i && not (writes && eqs p.status (codes "pending")) then p.pull_number else rest

abbrev pulls_note : Option Str → Str
pulls_note none = []
pulls_note (some n) = codes ", opened PR #" ++ n

abbrev accepted_note : Accepted → Str
accepted_note a =
    codes "Accepted → committed to " ++ a.branch ++ pulls_note a.pull_number ++ codes "."

abbrev pub pull_requests : Option Str → List Request
pull_requests none = []
pull_requests (some n) = go_pull n ∷ []

module _ (role : Str) where
  unfoldable pub step : Proposals → Event → Proposals × List Request
  unfolding can_write is_unfolded offers pull_of eqs includes
  step s (listed r) = (record s { items = list_or_nil r }, [])
  step s (toggle i) = (record s { opened = if is_unfolded s.opened i then none else some i }, [])
  step s (act v i) =
      if can_write role && offers (shown_proposals s) i && is_unfolded s.opened i && not s.busy
      then (record s { busy = true; note = [] }, post_verb i v ∷ [])
      else (s, [])
  step s (accept_answered (some a)) =
      (record s { busy = false; note = accepted_note a }, get_proposals ∷ [])
  step s (accept_answered none) = (
    record s { busy = false; note = codes "Accept failed — the patch may not apply cleanly." },
    [],
  )
  step s (reject_answered true) =
      (record s { busy = false; note = codes "Proposal rejected." }, get_proposals ∷ [])
  step s (reject_answered false) = (record s { busy = false; note = codes "Reject failed." }, [])
  step s (open_pull i) =
      if is_unfolded s.opened i
      then (s, pull_requests (pull_of (can_write role) (shown_proposals s) i))
      else (s, [])
