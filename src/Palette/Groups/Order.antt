-- ===== src/Palette/Groups/Order.antt =====
-- How the order of the rows on the screen is related to that of the filtered list.
use mathlib.Core.List.{Perm, perm_middle}
use mathlib.Core.List.Perm
use orchis_foundry.Prelude.{
  List, [], ◌∷◌, ◌++◌, append_assoc, append-nil, eqs, inl, inr, Bool-cases,
}
use orchis_foundry.Palette.Actions.{Action}
use orchis_foundry.Palette.Groups.{Group, add, add_all, groups, rows}

rows-add-perm : (a : Action) (gs : List Group) → Perm (rows (add a gs)) (a ∷ rows gs)
unfolding rows add
rows-add-perm a [] = Perm.refl (a ∷ [])
rows-add-perm a (g ∷ gs) = elim (Bool-cases (eqs g.name a.group)) [
  | inl e ↦ rw e (rw append_assoc (perm_middle g.items (rows gs)))
  | inr e ↦
      rw e
        (Perm.trans (Perm.append_left g.items (rows-add-perm a gs)) (perm_middle g.items (rows gs)))
]

rows-add_all-perm :
    (out : List Group) (l : List Action) → Perm (rows (add_all out l)) (rows out ++ l)
unfolding add_all
rows-add_all-perm out [] = rw append-nil (Perm.refl (rows out))
rows-add_all-perm out (a ∷ l) =
    Perm.trans (rows-add_all-perm (add a out) l) (
      Perm.trans (Perm.append_right l (rows-add-perm a out)) (Perm.symm (perm_middle (rows out) l)))

-- The screen shows each filtered row once, and nothing else.
rows-groups-perm : (l : List Action) → Perm (rows (groups l)) l
unfolding groups rows
rows-groups-perm l = rows-add_all-perm [] l
