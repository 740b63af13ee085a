-- ===== src/Palette/Actions.antt =====
-- The rows of the palette: the static actions, those that the server's hits become, and the filter.
-- `lower` stands for `toLowerCase`, which the filter uses on both sides of each comparison.
pub mod Filter
use Prim.Native.String.{String}
use orchis_foundry.Prelude.{
  ℕ, suc, Bool, true, false, not, ◌&&◌, Option, none, some, List, [], ◌∷◌, ◌++◌, map, leb,
  if◌then◌else◌, Str, codes, eqs, starts_with, trim, take,
}
use orchis_foundry.App.Route.{Route, to_view}

-- `run` navigates to `target`.
pub record Action : Type 0 where
  pub id : Str
  pub group : Str
  pub label : Str
  pub sub : Option Str
  pub hint : Option Str
  pub kbd : Option Str
  pub target : Route

abbrev settings_tab : String → Route
settings_tab t = record (to_view (codes "settings")) { tab = some (codes t) }

abbrev action : String → String → String → Route → Action
action i g l r = record {
  id = codes i;
  group = codes g;
  label = codes l;
  sub = none;
  hint = none;
  kbd = none;
  target = r;
}

-- The list that `staticActions` computes.
abbrev pub static_actions : List Action
static_actions =
    record (action "act-pat" "Quick action" "Create personal access token"
      (record (settings_tab "tokens") { new_token = true })) {
        hint = some (codes "PAT");
        kbd = some (codes "⌘T");
      }
    ∷ record (action "act-ssh" "Quick action" "Add SSH key"
        (record (settings_tab "ssh") { new_key = true })) { hint = some (codes "SSH") }
    ∷ action "act-wh" "Quick action" "Add webhook"
        (record (settings_tab "webhooks") { new_hook = true })
    ∷ record (action "act-new-repo" "Quick action" "New repository"
        (record (to_view (codes "home")) { new_repo = true })) { kbd = some (codes "⌘N") }
    ∷ action "nav-home" "Go to" "Home" (to_view (codes "home"))
    ∷ action "nav-prs" "Go to" "My pull requests" (to_view (codes "prs"))
    ∷ action "nav-dev" "Go to" "Developer settings" (to_view (codes "settings"))
    ∷ action "nav-tokens" "Go to" "Tokens" (settings_tab "tokens")
    ∷ action "nav-ssh" "Go to" "SSH keys" (settings_tab "ssh")
    ∷ action "nav-wh" "Go to" "Webhooks" (settings_tab "webhooks")
    ∷ []

-- A row of the server's answer.
pub record Hit : Type 0 where
  pub id : Str
  pub label : Str
  pub sub : Option Str
  pub target : Route

pub record Hits : Type 0 where
  pub repos : List Hit
  pub pulls : List Hit
  pub files : List Hit

abbrev pub no_hits : Hits
no_hits = record { repos = []; pulls = []; files = [] }

abbrev pub from_hit : String → String → Hit → Action
from_hit prefix group h = record {
  id = codes prefix ++ h.id;
  group = codes group;
  label = h.label;
  sub = h.sub;
  hint = none;
  kbd = none;
  target = h.target;
}

-- The list that `serverActions` computes.
unfoldable pub server_actions : Hits → List Action
server_actions h =
    map (from_hit "repo-" "Repositories") h.repos
    ++ (map (from_hit "pr-" "Pull requests") h.pulls ++ map (from_hit "file-" "Files") h.files)

-- `hay.includes(q)`.
unfoldable pub includes : Str → Str → Bool
unfolding starts_with
includes [] q = starts_with q []
includes (c ∷ s) q = let later = includes s q in if starts_with q (c ∷ s) then true else later

-- `x || ""`.
abbrev pub or_empty : Option Str → Str
or_empty none = []
or_empty (some s) = s

abbrev blank : Str
blank = codes " "

-- The row that opens the code search with the query.
unfoldable code_action : Str → List Action
unfolding eqs trim
code_action q =
    if eqs (trim q) []
    then []
    else record {
      id = codes "act-code-search";
      group = codes "Quick action";
      label = codes "Search code for “" ++ (trim q ++ codes "”");
      sub = none;
      hint = none;
      kbd = some (codes "↵");
      target = record (to_view (codes "search")) { q = some (trim q) };
    }
      ∷ []

pub record Scored : Type 0 where
  pub action : Action
  pub score : ℕ

-- `sort((a, b) => a._score - b._score)`, which is stable: an element stands behind its equals.
pub insert : Scored → List Scored → List Scored
insert x [] = x ∷ []
insert x (y ∷ ys) = if leb x.score y.score then x ∷ y ∷ ys else y ∷ insert x ys

pub sort : List Scored → List Scored
unfolding insert
sort [] = []
sort (x ∷ xs) = insert x (sort xs)

module _ (lower : Str → Str) where
  abbrev pub hay : Action → Str
  hay a =
      lower (
        a.label
        ++ (blank ++ (or_empty a.sub ++ (blank ++ (or_empty a.hint ++ (blank ++ a.group))))))

  unfoldable pub score : Action → Str → ℕ
  unfolding starts_with includes
  score a ql =
      if starts_with ql (lower a.label) then 0 else if includes (lower a.label) ql then 1 else 2

  -- `map(…).filter(Boolean)`.
  pub matches : Str → List Action → List Scored
  unfolding score includes
  matches ql [] = []
  matches ql (a ∷ rest) =
      if includes (hay a) ql
      then record { action = a; score = score a ql } ∷ matches ql rest
      else matches ql rest

  unfoldable pub statics : Str → List Action
  unfolding matches sort eqs trim
  statics q =
      if eqs (trim q) []
      then static_actions
      else map (λ s. s.action) (sort (matches (lower q) static_actions))

  -- `slice(0, 40)` of the three.
  unfoldable pub filtered : Str → Hits → List Action
  unfolding statics code_action server_actions
  filtered q h = take 40 (code_action q ++ (statics q ++ server_actions h))
