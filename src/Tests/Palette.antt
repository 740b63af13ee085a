-- ===== src/Tests/Palette.antt =====
-- The palette at concrete queries and keys.
use orchis_foundry.Prelude.{
  ℕ, ◌+◌, ◌++◌, not, true, false, ◌&&◌, filter, none, some, List, [], ◌∷◌, map, ◌≡◌, ◌↔◌, refl, Str,
  codes, leb, if◌then◌else◌, eqs, trim, get_elem?,
}
use orchis_foundry.Palette.Actions.Filter.{in_text, at_start, in_label, statics_lem}
use orchis_foundry.App.Route.{to_view}
use orchis_foundry.Palette.Actions.{
  Action, no_hits, static_actions, statics, filtered, score, includes,
}
use orchis_foundry.Palette.Groups.{groups, rows}
use orchis_foundry.Palette.Groups.Contiguous.{IsContiguous}
use orchis_foundry.Palette.Keys.{
  Palette, show, type_query, arrow_down, enter, click, closed, step, run,
}
use orchis_foundry.Palette.Keys.Highlight.{highlighted, highlighted_iff}

palette : Unit {0}
unfolding run step filtered groups rows highlighted statics score includes
palette = tt

-- `toLowerCase` on ASCII text.
abbrev lower_ascii : Str → Str
lower_ascii s = map (λ c. if leb b'A' c && leb c b'Z' then c + 32 else c) s

abbrev labels : List Action → List Str
labels l = map (λ a. a.label) l

abbrev tokens_found : List Action
tokens_found = filtered lower_ascii (codes "token") no_hits

-- The order that the arrow keys and Enter go by, and that on the screen.
found_labels :
    labels tokens_found
    ≡ codes "Search code for “token”" ∷ codes "Tokens" ∷ codes "Create personal access token" ∷ []
unfolding palette
found_labels = refl

shown_labels :
    labels (rows (groups tokens_found))
    ≡ codes "Search code for “token”" ∷ codes "Create personal access token" ∷ codes "Tokens" ∷ []
unfolding palette
shown_labels = refl

-- So the row that is highlighted is not the one that Enter runs.
wrong_row : ¬ ((i : ℕ) → highlighted tokens_found i ≡ get_elem? tokens_found i)
unfolding palette
wrong_row all = cc (all 1)

session :
    (run lower_ascii closed
      (show ∷ type_query (codes "webhooks") ∷ arrow_down ∷ arrow_down ∷ enter ∷ enter ∷ [])).1
    ≡ record (to_view (codes "settings")) { tab = some (codes "webhooks") } ∷ []
unfolding palette
session = refl

highlighted_iff_example :
    ((i : ℕ) → highlighted tokens_found i ≡ get_elem? tokens_found i) ↔ IsContiguous tokens_found
highlighted_iff_example = highlighted_iff tokens_found

two_blanks : eqs (trim (codes "  ")) [] ≡ true
unfolding eqs trim
two_blanks = refl

abbrev opened : Palette
opened = record closed { is_open = true; gen = 4 }

abbrev home : Action
home = record {
  id = codes "nav-home";
  group = codes "Go to";
  label = codes "Home";
  sub = none;
  hint = none;
  kbd = none;
  target = to_view (codes "home");
}

home_opens : (step lower_ascii opened (click home)).1 ≡ some (to_view (codes "home"))
unfolding palette
home_opens = refl

token_given : eqs (trim (codes "Token")) [] ≡ false
unfolding eqs trim
token_given = refl

abbrev token : Str
token = codes "token"

statics_lem_example :
    statics lower_ascii (codes "Token")
    ≡ filter (λ a. in_text lower_ascii token a && at_start lower_ascii token a) static_actions
      ++ (filter
            (λ a.
              in_text lower_ascii token a
              && (not (at_start lower_ascii token a) && in_label lower_ascii token a))
            static_actions
          ++ filter
              (λ a.
                in_text lower_ascii token a
                && (not (at_start lower_ascii token a) && not (in_label lower_ascii token a)))
              static_actions)
statics_lem_example = statics_lem lower_ascii (codes "Token") token_given
