-- ===== src/Tests/RepoView.antt =====
-- The view of a repository at concrete events.
use orchis_foundry.Prelude.{
  ℕ, Option, ◌++◌, true, false, none, some, List, [], ◌∷◌, ◌≡◌, ◌≢◌, ◌⊎◌, refl, In, Str, codes,
  session,
}
use orchis_foundry.Prelude.Int.{pos}
use orchis_foundry.Api.{Result, done}
use orchis_foundry.Repo.Tree.{Nodes, file, dir, no_nodes, node_cons}
use orchis_foundry.Repo.Pins.{load_pins, PinState, Meta, show_repo, toggle_pin_file}
use orchis_foundry.Repo.View
use orchis_foundry.Repo.View.Kept.{IsKept, IsLost, whole, session-IsKept}

repo_view : Unit {0}
unfolding session View.step show_repo toggle_pin_file
repo_view = tt

abbrev mock : Nodes
mock =
    node_cons
      (dir (codes "src") (codes "src") true
        (node_cons (file (codes "src/a.rs") (codes "a.rs")) no_nodes))
      no_nodes

abbrev no_pins : PinState
no_pins = record { repo = []; pins = []; store = [] }

abbrev seed : Meta
seed = record { stars = 2; starred = false; pinned = false }

abbrev first : View.RepoView × List View.Request
first = View.mounted mock no_pins seed (codes "me/a") (some (codes "src/a.rs"))

abbrev events : List View.Event
events =
    View.pin_path (codes "src/a.rs") true
    ∷ View.grab (pos 260)
    ∷ View.drag (pos 900)
    ∷ View.release
    ∷ View.show (codes "me/b") none
    ∷ View.got_tree 0 (done (some mock))
    ∷ View.star
    ∷ []

-- The late tree of the repository before is dropped, and its file is still the one that is open.
moved_on :
    ((whole first events).0.tree ≡ none)
    × ((whole first events).0.active ≡ codes "src/a.rs")
    × ((whole first events).0.pins.pins ≡ [])
    × ((whole first events).0.tree_width ≡ pos 420)
    × ((whole first (events ++ View.show (codes "me/a") none ∷ [])).0.pins.pins
        ≡ codes "src/a.rs" ∷ [])
unfolding repo_view
moved_on = (refl, refl, refl, refl, refl)

session-IsKept_example :
    IsKept (whole first events).0
    × (((whole first events).0.pins.pins
          ≡ load_pins (whole first events).0.pins.store (whole first events).0.repo)
        ⊎ ((e : View.Event) × In e events × IsLost e))
    × ((n : ℕ) (r : Str) (t : Result (Option Nodes))
        → In (View.get_tree n r) (whole first events).1
        → (View.step (whole first events).0 (View.got_tree n t)).0.tree
          ≢ (whole first events).0.tree
        → r ≡ (whole first events).0.repo)
session-IsKept_example =
    session-IsKept mock no_pins seed (codes "me/a") (some (codes "src/a.rs")) events
