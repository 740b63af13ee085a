-- ===== src/Repo/Pins.antt =====
-- The pinned files, which are kept per repository in `localStorage`, and the star and the pin of the
-- repository itself.
pub mod Toggles
use orchis_foundry.Prelude.{
  includes, ℕ, zero, suc, ◌+◌, ◌-◌, Bool, true, false, not, Option, none, some, List, [], ◌∷◌, ◌++◌,
  if◌then◌else◌, filter, Str, eqs,
}

-- What `localStorage` holds, by repository; the first entry of a repository counts. An entry is `none`
-- where it cannot be read or parsed.
abbrev Store : Type 0
Store = List (Str × Option (List Str))

abbrev or_nil : Option (List Str) → List Str
or_nil none = []
or_nil (some l) = l

-- `loadPins`: an entry that is missing or cannot be read is an empty list.
unfoldable pub load_pins : Store → Str → List Str
unfolding eqs
load_pins [] repo = []
load_pins (e ∷ es) repo = if eqs e.0 repo then or_nil e.1 else load_pins es repo

-- `savePins`, with whether the storage takes the entry: an error of it is caught.
abbrev save_pins : Bool → Store → Str → List Str → Store
save_pins taken st repo pins = if taken then (repo, some pins) ∷ st else st

-- The updater of `togglePinFile`.
unfoldable pub toggled : List Str → Str → List Str
unfolding includes eqs
toggled prev path =
    if includes prev path then filter (λ x. not (eqs x path)) prev else prev ++ path ∷ []

pub record PinState : Type 0 where
  pub repo : Str
  pub pins : List Str
  pub store : Store

-- The view of another repository loads its pins.
unfoldable pub show_repo : PinState → Str → PinState
unfolding load_pins
show_repo s repo = record s { repo = repo; pins = load_pins s.store repo }

unfoldable pub toggle_pin_file : PinState → Str → Bool → PinState
unfolding toggled
toggle_pin_file s path taken =
    let next = toggled s.pins path in
    record s { pins = next; store = save_pins taken s.store s.repo next }

pub record Meta : Type 0 where
  pub stars : ℕ
  pub starred : Bool
  pub pinned : Bool

-- The requests of `toggleStar` and `togglePin`: to set the mark or to remove it.
pub data MarkRequest : Type 0 where
  set_star remove_star set_pin remove_pin : MarkRequest

-- `Math.max(0, m.stars + (next ? 1 : -1))`: subtraction on ℕ stops at 0.
pub toggle_star : Meta → Meta × MarkRequest
toggle_star m =
    if m.starred
    then (record m { starred = false; stars = m.stars - 1 }, remove_star)
    else (record m { starred = true; stars = m.stars + 1 }, set_star)

unfoldable pub toggle_pin : Meta → Meta × MarkRequest
toggle_pin m =
    if m.pinned
    then (record m { pinned = false }, remove_pin)
    else (record m { pinned = true }, set_pin)
