-- ===== src/Tests/Chrome.antt =====
-- The look of the page, its bar and the lines of a file at concrete inputs.
use orchis_foundry.Prelude.{
  ℕ, true, false, none, some, List, [], ◌∷◌, ◌≡◌, refl, Str, codes, session, split, map,
}
use orchis_foundry.Api.{done, answer, unreachable}
use orchis_foundry.App.Prefs
use orchis_foundry.App.Look.{painted, show_all, hues, spring}
use orchis_foundry.App.Look.Painted.{show_all-painted}
use orchis_foundry.Nav
use orchis_foundry.Repo.Code.{BlameLine}
use orchis_foundry.Repo.Lines.{blame_lines, by_line, lines_from, opened_commit, fmt_bytes}

chrome : Unit {0}
unfolding session Nav.step show_all hues Prefs.step fmt_bytes lines_from split by_line
chrome = tt

abbrev at_first : Prefs.Prefs
at_first = Prefs.initial none (codes "light")

abbrev picks : List Prefs.Event
picks =
    Prefs.tweak (record Prefs.no_edits { accent = some (codes "cobalt") })
    ∷ Prefs.pick_theme (codes "dark") true
    ∷ Prefs.tweak (record Prefs.no_edits { accent = some (codes "plaid") })
    ∷ []

-- An accent without an entry is shown as the first one.
plaid : (show_all at_first (painted at_first) picks).1.hues.accent ≡ spring.dark_accent
unfolding chrome
plaid = refl

show_all-painted_example :
    (show_all at_first (painted at_first) picks).1
    ≡ painted (show_all at_first (painted at_first) picks).0
show_all-painted_example = show_all-painted picks at_first (painted at_first) refl

abbrev here : Nav.Place
here = record { hostname = codes "foundry.orchis.ai"; save_data = false }

abbrev reply : Nav.Event
reply = Nav.answered (
    answer
      (record { status = 200; content_length = none; body = done (some (some (codes "root"))) }))

probed :
    ((session Nav.step (Nav.mounted here).0 (reply ∷ [])).0.show_admin ≡ true)
    × ((session Nav.step (Nav.mounted here).0 (Nav.unmounted ∷ reply ∷ [])).0.show_admin ≡ false)
    × ((session Nav.step (Nav.mounted here).0 (Nav.answered (unreachable []) ∷ [])).0.show_admin
        ≡ false)
unfolding chrome
probed = (refl, refl, refl)

abbrev entry : ℕ → Str → BlameLine
entry n sha = record { line = n; sha = sha; author = []; summary = [] }

last_entry :
    map opened_commit (blame_lines (codes "a\nb") (entry 2 (codes "x") ∷ entry 2 (codes "y") ∷ []))
    ≡ none ∷ some (codes "y") ∷ []
unfolding chrome
last_entry = refl

-- The sizes, and the one right under a megabyte.
sizes :
    (fmt_bytes none ≡ [])
    × (fmt_bytes (some 1023) ≡ codes "1023 B")
    × (fmt_bytes (some 1536) ≡ codes "1.5 KB")
    × (fmt_bytes (some 1048575) ≡ codes "1024.0 KB")
    × (fmt_bytes (some 1048576) ≡ codes "1.0 MB")
unfolding chrome
sizes = (refl, refl, refl, refl, refl)
