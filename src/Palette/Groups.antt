-- ===== src/Palette/Groups.antt =====
-- The rendering by groups: `groups` collects the filtered rows under their group's name, in the order
-- in which the names are first met, and the rows are numbered in that order.
pub mod Order
pub mod Contiguous
use orchis_foundry.Prelude.{Bool, true, false, List, [], ◌∷◌, ◌++◌, if◌then◌else◌, Str, eqs}
use orchis_foundry.Palette.Actions.{Action}

pub record Group : Type 0 where
  pub name : Str
  pub items : List Action

-- One round of `filtered.forEach`: the map `seen` and the list `out` share their arrays, so a push
-- onto `seen.get(a.group)` is one onto the group of that name in `out`.
pub add : Action → List Group → List Group
unfolding eqs
add a [] = record { name = a.group; items = a ∷ [] } ∷ []
add a (g ∷ gs) =
    if eqs g.name a.group then record g { items = g.items ++ a ∷ [] } ∷ gs else g ∷ add a gs

pub add_all : List Group → List Action → List Group
unfolding add
add_all out [] = out
add_all out (a ∷ rest) = add_all (add a out) rest

unfoldable pub groups : List Action → List Group
unfolding add_all
groups filtered = add_all [] filtered

-- The rows in the order in which they are shown: `runningIdx` counts them.
unfoldable pub rows : List Group → List Action
rows [] = []
rows (g ∷ gs) = g.items ++ rows gs
