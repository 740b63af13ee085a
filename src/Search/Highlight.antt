-- ===== src/Search/Highlight.antt =====
-- `highlight`, which marks the matches of a query in a line. `lower` stands for `toLowerCase`. The texts
-- that are left, of the line and of its lower case, stand for the index `i`.
pub mod Pieces
pub mod Marks
use orchis_foundry.Prelude.{
  ℕ, zero, suc, ◌+◌, Bool, true, false, Option, none, some, List, [], ◌∷◌, ◌++◌, if◌then◌else◌, ltb,
  Str, eqs, starts_with, take, drop, length,
}

pub data Piece : Type 0 where
  plain : Str → Piece
  mark : Str → Piece

abbrev pub next : Option ℕ → Option ℕ
next none = none
next (some k) = some (suc k)

-- `hay.indexOf(needle)`, the needle first; `none` is -1.
pub index_of : Str → Str → Option ℕ
unfolding starts_with
index_of q [] = if starts_with q [] then some 0 else none
index_of q (c ∷ s) =
    let later = next (index_of q s) in if starts_with q (c ∷ s) then some 0 else later

-- `if (idx > i) out.push(text.slice(i, idx))`.
abbrev pub front : ℕ → Str → List Piece
front k t = if ltb 0 k then plain (take k t) ∷ [] else []

module _ (ql : Str) (n : ℕ) where
  -- The loop, on fuel: `n` is the length of the query, `ql` its lower case.
  pub pieces_from : ℕ → Str → Str → List Piece
  unfolding index_of
  pieces_from zero t l = []
  pieces_from (suc f) [] l = []
  pieces_from (suc f) (c ∷ t) l = elim (index_of ql l) [
    | none ↦ plain (c ∷ t) ∷ []
    | some k ↦
        front k (c ∷ t)
        ++ mark (take n (drop k (c ∷ t))) ∷ pieces_from f (drop (k + n) (c ∷ t)) (drop (k + n) l)
  ]

-- As many rounds as the line has units are enough, since each takes one at least.
unfoldable pub highlight : (Str → Str) → Str → Str → List Piece
unfolding pieces_from eqs
highlight lower text q =
    if eqs q []
    then plain text ∷ []
    else pieces_from (lower q) (length q) (length text) text (lower text)
