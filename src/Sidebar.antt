-- ===== src/Sidebar.antt =====
-- `Sidebar` and `NotificationsBell` of web/src/sidebar.jsx: the entries of the navigation, the pinned
-- repositories, and the inbox with what has been seen of it. `window.OrchisAPI` is always there
-- (data.jsx). What `localStorage` holds is the keys of the last write that it took.
pub mod Seen
use orchis_foundry.Prelude.{
  ℕ, Bool, true, false, not, ◌&&◌, Option, none, some, List, [], ◌∷◌, ◌++◌, if◌then◌else◌, filter,
  length, ltb, map, Str, codes, eqs, includes,
}
use orchis_foundry.Api.{Result, done, failed}

-- An item of the inbox. What is missing is an empty text.
pub record Item : Type 0 where
  pub title : Str
  pub repo : Str
  pub detail : Str

-- `itemKey`.
abbrev pub item_key : Item → Str
item_key i = i.title ++ codes "|" ++ i.repo ++ codes "|" ++ i.detail

-- `seen` is the set, in the order in which it is walked.
pub record Bell : Type 0 where
  pub items : List Item
  pub is_open : Bool
  pub seen : List Str

-- `persist` writes the set to `localStorage`, `go` sets a route.
pub data Request : Type 0 where
  get_inbox : Request
  persist : List Str → Request
  go : Item → Request

-- `notified` is the event "inbox.new" of the stream; `go_clicked` is a click on an item, with whether it
-- has a route.
pub data Event : Type 0 where
  got_inbox : Result (Option (List Item)) → Event
  notified toggle dismiss : Event
  go_clicked : Item → Bool → Event

-- `s.add(k)`.
pub add_key : List Str → Str → List Str
unfolding includes
add_key s k = if includes s k then s else s ++ k ∷ []

unfoldable pub add_keys : List Str → List Item → List Str
unfolding add_key
add_keys s [] = s
add_keys s (i ∷ is) = add_keys (add_key s (item_key i)) is

-- `unread`.
unfoldable pub unread : Bell → ℕ
unfolding includes
unread b = length (filter (λ i. not (includes b.seen (item_key i))) b.items)

abbrev list_or_nil : Result (Option (List Item)) → List Item
list_or_nil (done (some l)) = l
list_or_nil _ = []

abbrev pub is_empty : List Item → Bool
is_empty [] = true
is_empty (i ∷ is) = false

unfoldable pub step : Bell → Event → Bell × List Request
unfolding add_keys
step b (got_inbox r) = (record b { items = list_or_nil r }, [])
step b notified = (b, get_inbox ∷ [])
step b toggle =
    if not b.is_open && not (is_empty b.items)
    then (
      record b { is_open = true; seen = add_keys b.seen b.items },
      persist (add_keys b.seen b.items) ∷ [],
    )
    else (record b { is_open = not b.is_open }, [])
step b dismiss = (record b { is_open = false }, [])
step b (go_clicked i routed) = (record b { is_open = false }, if routed then go i ∷ [] else [])

-- What the storage holds after the requests, where it held `s`. For each write in turn it is given whether
-- the storage takes it: an error of `setItem` is caught. Writes behind those are taken.
pub stored : List Str → List Request → List Bool → List Str
stored s [] ws = s
stored s (persist k ∷ rs) [] = stored k rs []
stored s (persist k ∷ rs) (w ∷ ws) = stored (if w then k else s) rs ws
stored s (get_inbox ∷ rs) ws = stored s rs ws
stored s (go i ∷ rs) ws = stored s rs ws

-- The bell of a page that is opened: the keys of the storage, no items.
abbrev pub opened : List Str → Bell
opened keys = record { items = []; is_open = false; seen = keys }

-- The entries of the navigation, with a badge where one is shown.
record NavItem : Type 0 where
  pub id : Str
  pub badge : Option ℕ

abbrev nav : Str → NavItem
nav i = record { id = i; badge = none }

-- `prCount > 0 ? prCount : undefined`.
abbrev badge_of : ℕ → Option ℕ
badge_of n = if ltb 0 n then some n else none

-- `navItems`, for an administrator or not, with the number of pull requests that wait for a review.
abbrev nav_items : Bool → ℕ → List NavItem
nav_items is_admin count =
    nav (codes "home")
    ∷ record { id = codes "prs"; badge = badge_of count }
    ∷ nav (codes "search")
    ∷ nav (codes "settings")
    ∷ (if is_admin then nav (codes "admin") ∷ [] else [])

-- The number of an answer, and of a request that failed.
abbrev pr_count {ℓ} : {A : Type ℓ} → Result (Option (List A)) → ℕ
pr_count (done (some l)) = length l
pr_count _ = 0
