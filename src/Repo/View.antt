-- ===== src/Repo/View.antt =====
-- `RepoView` with `RepoMainPanel` and `Subtab`: the repository that is shown, its tree, its pins and its
-- marks together. A request for the tree has a number, in place of the flag `cancelled`; the mock tree is
-- given.
pub mod Kept
use orchis_foundry.Prelude.{
  ℕ, suc, ◌+◌, Bool, true, false, not, ◌&&◌, Option, none, some, List, [], ◌∷◌, ◌++◌, if◌then◌else◌,
  ◌==◌, Str, codes, eqs,
}
use orchis_foundry.Prelude.Int.{ℤ, pos, ◌+ℤ◌, ◌-ℤ◌, min_ℤ, max_ℤ}
use orchis_foundry.Api.{Result, done, failed}
use orchis_foundry.Repo.Tree.{Nodes, no_nodes, Expanded, collect_nodes, toggle, Row, tree_rows}
use orchis_foundry.Repo.Pins.{
  PinState, show_repo, toggle_pin_file, Meta, MarkRequest, toggle_star, toggle_pin,
}

pub data Subtab : Type 0 where
  code readme commits proposals activity releases : Subtab

-- Where a drag of the border of the tree began, and how wide the tree was.
pub record Grip : Type 0 where
  pub start_x : ℤ
  pub start_w : ℤ

-- `tree` is `none` until it has come, and where it cannot be read.
pub record RepoView : Type 0 where
  pub repo : Str
  pub file : Option Str
  pub active : Str
  pub tab : Subtab
  pub expanded : Expanded
  pub tree : Option Nodes
  pub asked : ℕ
  pub pins : PinState
  meta : Meta
  pub tree_width : ℤ
  pub grip : Option Grip
  show_settings : Bool

pub data Request : Type 0 where
  get_tree : ℕ → Str → Request
  get_repo : Str → Request
  mark : Str → MarkRequest → Request
  repos_changed : Request

-- `show` is the view with another repository or file; `pin_path` says whether the storage takes the pins.
pub data Event : Type 0 where
  show : Str → Option Str → Event
  got_tree : ℕ → Result (Option Nodes) → Event
  got_repo : Result Meta → Event
  toggle_dir pick_file : Str → Event
  pin_path : Str → Bool → Event
  pick_tab : Subtab → Event
  star pin settings_opened settings_closed release : Event
  pin_answered : Bool → Event
  grab drag : ℤ → Event

abbrev pub or_active : Str → Option Str → Str
or_active active none = active
or_active active (some f) = if eqs f [] then active else f

-- The effects on the repository.
abbrev repo_requests : ℕ → Str → List Request
repo_requests n repo = if eqs repo [] then [] else get_tree n repo ∷ get_repo repo ∷ []

abbrev tree_or_nil : Option Nodes → Nodes
tree_or_nil none = no_nodes
tree_or_nil (some t) = t

abbrev tree_or_mock : Result (Option Nodes) → Option Nodes
tree_or_mock (done t) = some (tree_or_nil t)
tree_or_mock (failed e) = none

abbrev meta_or : Meta → Result Meta → Meta
meta_or m (done n) = n
meta_or m (failed e) = m

abbrev pub resized : RepoView → Option Grip → ℤ → RepoView
resized v none x = v
resized v (some g) x = record v {
  tree_width = max_ℤ (pos 180) (min_ℤ (pos 420) (g.start_w +ℤ (x -ℤ g.start_x)));
}

-- Another repository: its pins, no tree yet, and the requests.
unfoldable pub with_repo : RepoView → Str → RepoView × List Request
unfolding eqs
with_repo v repo = if eqs v.repo repo then (v, []) else (
  record v { repo = repo; pins = show_repo v.pins repo; tree = none; asked = suc v.asked },
  repo_requests (suc v.asked) repo,
)

abbrev same_file : Option Str → Option Str → Bool
same_file none none = true
same_file (some a) (some b) = eqs a b
same_file _ _ = false

-- `if (file) setActive(file)`, where the file is another one.
abbrev pub with_file : RepoView → Option Str → RepoView
with_file v file =
    if same_file v.file file then v else record v { file = file; active = or_active v.active file }

unfoldable pub step : RepoView → Event → RepoView × List Request
unfolding with_repo eqs ◌+ℤ◌ ◌-ℤ◌ min_ℤ max_ℤ
step v (show repo file) = let r = with_repo v repo in (with_file r.0 file, r.1)
step v (got_tree n t) = (if n == v.asked then record v { tree = tree_or_mock t } else v, [])
step v (got_repo m) = (record v { meta = meta_or v.meta m }, [])
step v (toggle_dir path) = (record v { expanded = toggle v.expanded path }, [])
step v (pick_file path) = (record v { active = path; tab = code }, [])
step v (pin_path path taken) = (record v { pins = toggle_pin_file v.pins path taken }, [])
step v (pick_tab t) = (record v { tab = t }, [])
step v star = let r = toggle_star v.meta in (record v { meta = r.0 }, mark v.repo r.1 ∷ [])
step v pin = let r = toggle_pin v.meta in (record v { meta = r.0 }, mark v.repo r.1 ∷ [])
step v (pin_answered ok) = (v, if ok then repos_changed ∷ [] else [])
step v settings_opened = (record v { show_settings = true }, [])
step v settings_closed = (record v { show_settings = false }, [])
step v (grab x) = (record v { grip = some (record { start_x = x; start_w = v.tree_width }) }, [])
step v (drag x) = (resized v v.grip x, [])
step v release = (record v { grip = none }, [])

module _ (mock : Nodes) where
  -- The view when it is opened, where `seed` is what the list of the repositories says of this one.
  abbrev pub mounted : PinState → Meta → Str → Option Str → RepoView × List Request
  mounted pins seed repo file = (
    record {
      repo = repo;
      file = file;
      active = or_active (codes "README.md") file;
      tab = code;
      expanded = collect_nodes mock [];
      tree = none;
      asked = 0;
      pins = show_repo pins repo;
      meta = seed;
      tree_width = pos 260;
      grip = none;
      show_settings = false;
    },
    repo_requests 0 repo,
  )

  -- `tree || FILE_TREE`.
  abbrev tree_nodes : Option Nodes → Nodes
  tree_nodes none = mock
  tree_nodes (some t) = t

  -- The rows of the tree.
  abbrev tree_shown : RepoView → List Row
  tree_shown v = tree_rows v.expanded v.active v.pins.pins (tree_nodes v.tree) 0
