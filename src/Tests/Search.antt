-- ===== src/Tests/Search.antt =====
-- The code search at concrete lines and sessions.
use orchis_foundry.Prelude.{
  ℕ, ◌+◌, true, false, ◌&&◌, none, some, List, [], ◌∷◌, map, ◌≡◌, ◌≢◌, refl, arith, codes, All, leb,
  if◌then◌else◌,
}
use orchis_foundry.Search.Highlight.{plain, mark, highlight}
use orchis_foundry.Search.Highlight.Pieces.{shown, highlight-shown}
use orchis_foundry.Search.Highlight.Marks.{IsMatch, highlight-IsMatch}
use orchis_foundry.Search.Session.{
  Hit, Search, Event, type_query, elapsed, answer, mount, is_short, step, run, repo_groups,
}
use orchis_foundry.Search.Session.Laws.{IsStale, search_lem, short_query_lem}

search : Unit {0}
unfolding highlight run mount repo_groups
search = tt

abbrev lower_unit : ℕ → ℕ
lower_unit c = if leb b'A' c && leb c b'Z' then c + 32 else c

two_marks :
    highlight (map lower_unit) (codes "let Letter") (codes "LET")
    ≡ mark (codes "let") ∷ plain (codes " ") ∷ mark (codes "Let") ∷ plain (codes "ter") ∷ []
unfolding search
two_marks = refl

highlight-shown_example :
    shown (highlight (map lower_unit) (codes "let x") (codes "T ")) ≡ codes "let x"
highlight-shown_example = highlight-shown (map lower_unit) (codes "let x") (codes "T ")

highlight-IsMatch_example :
    All (IsMatch lower_unit (codes "T ")) (highlight (map lower_unit) (codes "let x") (codes "T "))
highlight-IsMatch_example = highlight-IsMatch lower_unit (codes "let x") (codes "T ")

abbrev searching : Search
searching = record {
  query = codes "rou";
  lang = [];
  repo = [];
  hits = none;
  loading = true;
  gen = 4;
}

-- The query is emptied while the answer is awaited: "Searching…" stays.
stuck : (run searching (type_query [] ∷ elapsed 4 ∷ answer 4 (some []) ∷ [])).loading ≡ true
unfolding search
stuck = refl

other_query : codes "route" ≢ codes "rou"
other_query e = cc e

route_long : is_short (record searching { query = codes "route" }) ≡ false
unfolding search
route_long = refl

abbrev late : List Event
late = answer 4 none ∷ []

late-IsStale : All (IsStale (searching.gen + 1)) late
late-IsStale = (λ e. absurd (omega (arith, e)), tt)

search_lem_example :
    (step
      (run (step searching (type_query (codes "route"))).0 late)
      (answer (searching.gen + 1) none)).0
    ≡ record searching {
      query = codes "route";
      hits = some [];
      loading = false;
      gen = searching.gen + 1;
    }
search_lem_example =
    search_lem searching (codes "route") late none other_query route_long late-IsStale

r_short : is_short (record searching { query = codes "r" }) ≡ true
unfolding search
r_short = refl

one_letter : codes "r" ≢ codes "rou"
one_letter e = cc e

short_query_lem_example : (run (step searching (type_query (codes "r"))).0 late).loading ≡ true
short_query_lem_example =
    short_query_lem searching (codes "r") late one_letter r_short refl late-IsStale

abbrev found : List Hit
found =
    record { repo = codes "a"; path = codes "x"; line = 1; text = [] }
    ∷ record { repo = codes "b"; path = codes "y"; line = 2; text = [] }
    ∷ record { repo = codes "a"; path = codes "z"; line = 3; text = [] }
    ∷ []
