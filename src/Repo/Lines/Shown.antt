-- ===== src/Repo/Lines/Shown.antt =====
-- The lines that are shown, and the sizes.
use orchis_foundry.Prelude.{
  ℕ, suc, ◌+◌, ◌*◌, ◌≤◌, ◌<◌, Option, none, some, List, [], ◌∷◌, map, ◌≡◌, refl, sym, ap, ◌∙◌,
  arith, Str, split, if-case, ◌==◌, ==_iff, ◌⊎◌, inl, inr, In,
}
use orchis_foundry.Code.Lexer.{highlight_rust}
use orchis_foundry.Repo.Code.{BlameLine}
use orchis_foundry.Repo.Lines.{
  CodeLine, or_entry, by_line, lines_from, code_lines, blame_lines, tenths,
}

abbrev without_blame : CodeLine → CodeLine
without_blame l = record l { blame = none }

lines_from-without :
    (by : ℕ → Option BlameLine) (n : ℕ) (lns : List Str)
    → map without_blame (lines_from by n lns) ≡ lines_from (λ m. none) n lns
unfolding lines_from
lines_from-without by n [] = refl
lines_from-without by n (ln ∷ lns) =
    ap (λ ls. record { number = n; blame = none; tokens = highlight_rust ln } ∷ ls)
      (lines_from-without by (suc n) lns)

-- Whatever the blame says, its view shows the lines of the plain view, with their numbers and colours.
blame_lines-code_lines :
    (code : Str) (blame : List BlameLine)
    → map without_blame (blame_lines code blame) ≡ code_lines code
blame_lines-code_lines code blame = lines_from-without (by_line blame) 1 (split 10 code)

or_entry-cases :
    (o : Option BlameLine) (c : BlameLine) (n : ℕ) (b : BlameLine)
    → or_entry o c n ≡ some b
    → (o ≡ some b) ⊎ ((c.line ≡ n) × (c ≡ b))
or_entry-cases none c n b =
    if-case (λ x. x ≡ some b → (none ≡ some b) ⊎ ((c.line ≡ n) × (c ≡ b))) (c.line == n) (some c)
      none (λ t e. inr ((==_iff c.line n).0 t, cc e)) (λ _ e. inl e)
or_entry-cases (some d) c n b = λ e. inl e

-- What stands at a line is an entry of the blame for this line.
by_line-In :
    (bs : List BlameLine) (n : ℕ) (b : BlameLine) → by_line bs n ≡ some b → In b bs × (b.line ≡ n)
unfolding by_line
by_line-In [] n b h = absurd (let x : ⊥ = cc h in x)
by_line-In (c ∷ bs) n b h = elim (or_entry-cases (by_line bs n) c n b h) [
  | inl e ↦ let (i, l) = by_line-In bs n b e in (inr i, l)
  | inr (l, e) ↦ (inl (sym e), ap (λ x. x.line) (sym e) ∙ l)
]

-- A size in kilobytes or megabytes is off by half of a tenth at most.
tenths-near :
    (n : ℕ)
    → (tenths n 1024 * 1024 ≤ n * 10 + 512)
      × (n * 10 < tenths n 1024 * 1024 + 512)
      × (tenths n 1048576 * 1048576 ≤ n * 10 + 524288)
      × (n * 10 < tenths n 1048576 * 1048576 + 524288)
tenths-near n = (omega arith, omega arith, omega arith, omega arith)
