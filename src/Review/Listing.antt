-- ===== src/Review/Listing.antt =====
-- `PRsView`, the list of pull requests, and what `CommitsList` opens. An answer to the request for the list
-- is taken whichever filter it was asked for.
use orchis_foundry.Prelude.{
  ℕ, Bool, Option, none, some, List, [], ◌∷◌, ◌++◌, if◌then◌else◌, Str, codes, eqs,
}
use orchis_foundry.App.Route.{Route, to_view}

pub data Filter : Type 0 where
  review_requested yours mentioned all : Filter

pub record PullRow : Type 0 where
  pub repo : Str
  pub id : ℕ
  pub title : Str

pub record Listing : Type 0 where
  pub filter : Filter
  pub pulls : Option (List PullRow)

abbrev filter_id : Filter → Str
filter_id review_requested = codes "review-requested"
filter_id yours = codes "yours"
filter_id mentioned = codes "mentioned"
filter_id all = codes "all"

abbrev same_filter : Filter → Filter → Bool
same_filter f g = eqs (filter_id f) (filter_id g)

-- The request of the effect on `[filter]`; the identifiers of the filters need no encoding.
abbrev list_url : Filter → Str
list_url f = codes "/v1/pulls?filter=" ++ filter_id f

pub data ListEvent : Type 0 where
  mounted : ListEvent
  pick : Filter → ListEvent
  listed : Option (List PullRow) → ListEvent

abbrev pub new_listing : Listing
new_listing = record { filter = review_requested; pulls = none }

abbrev or_nil : Option (List PullRow) → List PullRow
or_nil none = []
or_nil (some l) = l

-- The new state and the URLs that are asked for.
unfoldable list_step : Listing → ListEvent → Listing × List Str
unfolding eqs
list_step s mounted = (s, list_url s.filter ∷ [])
list_step s (pick f) =
    (if same_filter f s.filter then (s, []) else (record s { filter = f }, list_url f ∷ []))
list_step s (listed o) = (record s { pulls = some (or_nil o) }, [])

unfoldable pub list_run : Listing → List ListEvent → Listing × List Str
unfolding list_step
list_run s [] = (s, [])
list_run s (e ∷ es) = let r = list_step s e in let rest = list_run r.0 es in (rest.0, r.1 ++ rest.1)

-- The rows that are shown, and where a row leads.
abbrev shown_rows : Listing → List PullRow
shown_rows s = or_nil s.pulls

abbrev row_route : PullRow → Route
row_route p = record (to_view (codes "pr")) { pr = some p.id; repo = some p.repo }
