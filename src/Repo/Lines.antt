-- ===== src/Repo/Lines.antt =====
-- What the view of a file shows of it: `CodeBlock`, `BlameBlock` and `fmtBytes`.
pub mod Shown
use orchis_foundry.Prelude.{
  ℕ, suc, ◌+◌, ◌*◌, ◌/◌, ◌%◌, Bool, true, false, Option, none, some, List, [], ◌∷◌, ◌++◌,
  if◌then◌else◌, ltb, ◌==◌, Str, codes, split, digits,
}
use orchis_foundry.Code.Lexer.{Token, highlight_rust}
use orchis_foundry.Repo.Code.{BlameLine}

-- A line with its number and, where the blame is shown, with what is known of it.
pub record CodeLine : Type 0 where
  pub number : ℕ
  pub blame : Option BlameLine
  pub tokens : List Token

-- `by[n]`: the last entry for a line counts; `or_entry` is what an earlier one gives.
abbrev pub or_entry : Option BlameLine → BlameLine → ℕ → Option BlameLine
or_entry none b n = if b.line == n then some b else none
or_entry (some c) b n = some c

unfoldable pub by_line : List BlameLine → ℕ → Option BlameLine
by_line [] n = none
by_line (b ∷ bs) n = or_entry (by_line bs n) b n

module _ (by : ℕ → Option BlameLine) where
  -- The lines, the first of which is numbered `n`.
  unfoldable pub lines_from : ℕ → List Str → List CodeLine
  unfolding highlight_rust
  lines_from n [] = []
  lines_from n (ln ∷ lns) =
      record { number = n; blame = by n; tokens = highlight_rust ln } ∷ lines_from (suc n) lns

-- `CodeBlock`.
abbrev pub code_lines : Str → List CodeLine
code_lines code = lines_from (λ n. none) 1 (split 10 code)

-- `BlameBlock`.
abbrev pub blame_lines : Str → List BlameLine → List CodeLine
blame_lines code blame = lines_from (by_line blame) 1 (split 10 code)

-- The commit that a click on the gutter of a line opens.
abbrev pub opened_commit : CodeLine → Option Str
opened_commit l = elim l.blame [ none ↦ none | some b ↦ some b.sha ]

-- The tenths of `(n / d).toFixed(1)`: the nearest number, the larger one of two.
abbrev pub tenths : ℕ → ℕ → ℕ
tenths n d = (n * 20 + d) / (d * 2)

abbrev fixed : ℕ → Str
fixed t = digits (suc (t / 10)) (t / 10) ++ 46 ∷ digits (suc (t % 10)) (t % 10)

-- `fmtBytes`.
unfoldable pub fmt_bytes : Option ℕ → Str
unfolding digits
fmt_bytes none = []
fmt_bytes (some n) =
    if ltb n 1024
    then digits (suc n) n ++ codes " B"
    else if ltb n 1048576
    then fixed (tenths n 1024) ++ codes " KB"
    else fixed (tenths n 1048576) ++ codes " MB"
