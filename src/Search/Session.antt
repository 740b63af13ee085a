-- ===== src/Search/Session.antt =====
-- The state of `SearchView` and its request. `gen` counts the runs of the effect on `[q, lang, repo]`,
-- each of which cancels the timer and the request of the run before; the timer's end and the answer
-- name their run.
pub mod Laws
use orchis_foundry.Prelude.{
  ℕ, zero, suc, ◌+◌, Bool, true, false, not, ◌&&◌, Option, none, some, List, [], ◌∷◌, ◌++◌,
  if◌then◌else◌, ◌==◌, ltb, Str, eqs, trim, length,
}

pub record Hit : Type 0 where
  pub repo : Str
  pub path : Str
  pub line : ℕ
  pub text : Str

pub record Search : Type 0 where
  pub query : Str
  pub lang : Str
  pub repo : Str
  pub hits : Option (List Hit)
  pub loading : Bool
  pub gen : ℕ

-- The parameters of the request; those that are empty are left out.
pub record Params : Type 0 where
  pub q : Str
  pub lang : Option Str
  pub repo : Option Str

abbrev if_any : Str → Option Str
if_any s = if eqs s [] then none else some s

unfoldable params_of : Search → Params
unfolding trim eqs
params_of s = record { q = trim s.query; lang = if_any s.lang; repo = if_any s.repo }

pub data Event : Type 0 where
  type_query pick_lang : Str → Event
  clear_repo : Event
  elapsed : ℕ → Event
  answer : ℕ → Option (List Hit) → Event

abbrev pub or_none : Option (List Hit) → List Hit
or_none none = []
or_none (some hs) = hs

-- `q.trim().length < 2`.
abbrev pub is_short : Search → Bool
is_short s = ltb (length (trim s.query)) 2

-- The effect: it looks at the query, and sets a timer unless the query is short.
pub effect : Search → Search
unfolding trim eqs
effect s =
    if is_short s
    then record s { hits = if eqs (trim s.query) [] then none else some []; gen = s.gen + 1 }
    else record s { loading = true; gen = s.gen + 1 }

-- The view of a route with a query and a repository, either empty.
unfoldable pub mount : Str → Str → Search
unfolding effect
mount q repo =
    effect (record { query = q; lang = []; repo = repo; hits = none; loading = false; gen = 0 })

-- A setter runs the effect when its value has changed. A run on a short query has set no timer.
unfoldable pub step : Search → Event → Search × Option Params
unfolding effect params_of eqs
step s (type_query q) = (if eqs q s.query then s else effect (record s { query = q }), none)
step s (pick_lang l) = (if eqs l s.lang then s else effect (record s { lang = l }), none)
step s clear_repo = (if eqs [] s.repo then s else effect (record s { repo = [] }), none)
step s (elapsed g) = (s, if g == s.gen && not (is_short s) then some (params_of s) else none)
step s (answer g o) =
    (if g == s.gen then record s { hits = some (or_none o); loading = false } else s, none)

unfoldable pub run : Search → List Event → Search
unfolding step
run s [] = s
run s (e ∷ es) = run (step s e).0 es

-- The groups by repository, in the order in which the repositories are first met: the keys of the
-- map `m`, each with its hits.
pub record RepoGroup : Type 0 where
  pub name : Str
  pub items : List Hit

pub add_hit : Hit → List RepoGroup → List RepoGroup
unfolding eqs
add_hit h [] = record { name = h.repo; items = h ∷ [] } ∷ []
add_hit h (g ∷ gs) =
    let later = add_hit h gs in
    if eqs g.name h.repo then record g { items = g.items ++ h ∷ [] } ∷ gs else g ∷ later

pub group_hits : List RepoGroup → List Hit → List RepoGroup
unfolding add_hit
group_hits gs [] = gs
group_hits gs (h ∷ hs) = group_hits (add_hit h gs) hs

unfoldable pub repo_groups : Option (List Hit) → List RepoGroup
unfolding group_hits
repo_groups o = group_hits [] (or_none o)
