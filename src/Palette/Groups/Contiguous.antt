-- ===== src/Palette/Groups/Contiguous.antt =====
-- Lists of rows in which no group is left and met again, and the two orders of the palette.
use orchis_foundry.Prelude.{
  false, List, [], ◌∷◌, ◌++◌, append_assoc, append-nil, Str, eqs, eqs_iff, ◌≡◌, ◌≢◌, ◌↔◌, refl, sym,
  ap, ◌∙◌, inl, inr, ◌⊎◌, Bool-cases, All, All-append,
}
use mathlib.Core.List.{cons-ne-nil, concat-ne-nil}
use orchis_foundry.Palette.Actions.{Action}
use orchis_foundry.Palette.Groups.{Group, add, add_all, groups, rows}

-- The name is none of those.
abbrev pub NotIn : Str → List Str → Type 0
NotIn m = All (λ k. eqs k m ≡ false)

-- A list whose first rows belong to group `n`, behind the groups `left`: each row belongs to the
-- group of the row before it, or to one that has not been met.
abbrev pub Follows : Str → List Str → List Action → Type 0
Follows n left [] = Unit
Follows n left (a ∷ l) =
    (a.group ≡ n) × Follows n left l
    ⊎ NotIn a.group (left ++ n ∷ []) × Follows a.group (left ++ n ∷ []) l

abbrev pub IsContiguous : List Action → Type 0
IsContiguous [] = Unit
IsContiguous (a ∷ l) = Follows a.group [] l

abbrev names : List Group → List Str
names [] = []
names (g ∷ gs) = g.name ∷ names gs

names-append : (gs hs : List Group) → names (gs ++ hs) ≡ names gs ++ names hs
names-append [] hs = refl
names-append (g ∷ gs) hs = ap (g.name ∷◌) (names-append gs hs)

rows-append : (gs hs : List Group) → rows (gs ++ hs) ≡ rows gs ++ rows hs
unfolding rows
rows-append [] hs = refl
rows-append (g ∷ gs) hs =
    ap (λ l. g.items ++ l) (rows-append gs hs) ∙ sym (append_assoc g.items _ _)

abbrev only : Action → Group
only a = record { name = a.group; items = a ∷ [] }

abbrev grown : Group → Action → Group
grown g a = record g { items = g.items ++ a ∷ [] }

add_new : (a : Action) (gs : List Group) → NotIn a.group (names gs) → add a gs ≡ gs ++ only a ∷ []
unfolding add
add_new a [] h = refl
add_new a (g ∷ gs) (e, h) = rw e (ap (g ∷◌) (add_new a gs h))

add_last :
    (a : Action) (pre : List Group) (g : Group)
    → NotIn a.group (names pre)
    → a.group ≡ g.name
    → add a (pre ++ g ∷ []) ≡ pre ++ grown g a ∷ []
unfolding add
add_last a [] g h e = rw ((eqs_iff g.name a.group).1 (sym e))
add_last a (p ∷ pre) g (n, h) e = rw n (ap (p ∷◌) (add_last a pre g h e))

rows-grown :
    (pre : List Group) (g : Group) (a : Action) (l : List Action)
    → rows (pre ++ grown g a ∷ []) ++ l ≡ rows (pre ++ g ∷ []) ++ a ∷ l
unfolding rows
rows-grown [] g a l = simp (append_assoc, append-nil)
rows-grown (p ∷ pre) g a l =
    append_assoc p.items _ l
    ∙ ap (λ t. p.items ++ t) (rows-grown pre g a l)
    ∙ sym (append_assoc p.items _ _)

rows-only :
    (gs : List Group) (a : Action) (l : List Action)
    → rows (gs ++ only a ∷ []) ++ l ≡ rows gs ++ a ∷ l
unfolding rows
rows-only [] a l = refl
rows-only (p ∷ gs) a l =
    append_assoc p.items _ l
    ∙ ap (λ t. p.items ++ t) (rows-only gs a l)
    ∙ sym (append_assoc p.items _ _)

rows-add_all :
    (l : List Action) (pre : List Group) (g : Group)
    → NotIn g.name (names pre)
    → Follows g.name (names pre) l
    → rows (add_all (pre ++ g ∷ []) l) ≡ rows (pre ++ g ∷ []) ++ l
unfolding add_all
rows-add_all [] pre g distinct h = sym (append-nil _)
rows-add_all (a ∷ l) pre g distinct (inl (e, h)) =
    ap (λ gs. rows (add_all gs l)) (add_last a pre g (rw e distinct) e)
    ∙ rows-add_all l pre (grown g a) distinct h
    ∙ rows-grown pre g a l
rows-add_all (a ∷ l) pre g distinct (inr (new, h)) =
    let eq = names-append pre (g ∷ []) in
    ap (λ gs. rows (add_all gs l)) (add_new a (pre ++ g ∷ []) (rw eq new))
    ∙ rows-add_all l (pre ++ g ∷ []) (only a) (rw eq new) (rw eq h)
    ∙ rows-only (pre ++ g ∷ []) a l

rows-groups_of_contiguous : (l : List Action) → IsContiguous l → rows (groups l) ≡ l
unfolding groups
rows-groups_of_contiguous [] h = unfold add_all rows in refl
rows-groups_of_contiguous (a ∷ l) h = unfold add_all add rows in rows-add_all l [] (only a) tt h

-- Groups that hold their own rows, one at least, under names that differ and are not among `left`.
abbrev Separate : List Str → List Group → Type 0
Separate left [] = Unit
Separate left (g ∷ gs) =
    NotIn g.name left
    × (g.items ≢ [])
    × All (λ a. a.group ≡ g.name) g.items
    × Separate (left ++ g.name ∷ []) gs

add-Separate :
    (a : Action) (left : List Str) (gs : List Group)
    → NotIn a.group left
    → Separate left gs
    → Separate left (add a gs)
unfolding add
add-Separate a left [] new h = (new, cons-ne-nil a [], (refl, tt), tt)
add-Separate a left (g ∷ gs) new (n, ne, own, h) = elim (Bool-cases (eqs g.name a.group)) [
  | inl e ↦ rw e (
    n,
    concat-ne-nil a g.items,
    All-append _ g.items (a ∷ []) own (sym ((eqs_iff g.name a.group).0 e), tt),
    h,
  )
  | inr e ↦ rw e (
    n,
    ne,
    own,
    add-Separate a (left ++ g.name ∷ []) gs (All-append _ left (g.name ∷ []) new (e, tt)) h,
  )
]

add_all-Separate : (l : List Action) (gs : List Group) → Separate [] gs → Separate [] (add_all gs l)
unfolding add_all
add_all-Separate [] gs h = h
add_all-Separate (a ∷ l) gs h = add_all-Separate l (add a gs) (add-Separate a [] gs tt h)

Follows-append :
    (n : Str) (left : List Str) (l r : List Action)
    → All (λ a. a.group ≡ n) l
    → Follows n left r
    → Follows n left (l ++ r)
Follows-append n left [] r own h = h
Follows-append n left (a ∷ l) r (e, own) h = inl (e, Follows-append n left l r own h)

-- The rows of a new group `m`, behind a group `n` or at the start.
items-Follows :
    (n : Str) (left : List Str) (m : Str) (items rest : List Action)
    → items ≢ []
    → All (λ a. a.group ≡ m) items
    → NotIn m (left ++ n ∷ [])
    → Follows m (left ++ n ∷ []) rest
    → Follows n left (items ++ rest)
items-Follows n left m [] rest ne own new h = absurd (ne refl)
items-Follows n left m (a ∷ items) rest ne (e, own) new h =
    inr (rw e (new, Follows-append m (left ++ n ∷ []) items rest own h))

items-IsContiguous :
    (m : Str) (items rest : List Action)
    → items ≢ []
    → All (λ a. a.group ≡ m) items
    → Follows m [] rest
    → IsContiguous (items ++ rest)
items-IsContiguous m [] rest ne own h = absurd (ne refl)
items-IsContiguous m (a ∷ items) rest ne (e, own) h = rw e (Follows-append m [] items rest own h)

rows-Follows :
    (n : Str) (left : List Str) (gs : List Group)
    → Separate (left ++ n ∷ []) gs
    → Follows n left (rows gs)
unfolding rows
rows-Follows n left [] h = tt
rows-Follows n left (g ∷ gs) (new, ne, own, h) =
    items-Follows n left g.name g.items (rows gs) ne own new
      (rows-Follows g.name (left ++ n ∷ []) gs h)

rows-IsContiguous : (gs : List Group) → Separate [] gs → IsContiguous (rows gs)
unfolding rows
rows-IsContiguous [] h = tt
rows-IsContiguous (g ∷ gs) (new, ne, own, h) =
    items-IsContiguous g.name g.items (rows gs) ne own (rows-Follows g.name [] gs h)

-- The rows stand on the screen in the order of the filtered list, which the keys walk through, exactly
-- when no group is left and met again.
pub rows-groups_iff : (l : List Action) → (rows (groups l) ≡ l) ↔ IsContiguous l
rows-groups_iff l = (back, rows-groups_of_contiguous l)
  where
    back : rows (groups l) ≡ l → IsContiguous l
    back e = rw e at (rows-IsContiguous (groups l) (unfold groups in add_all-Separate l [] tt))
