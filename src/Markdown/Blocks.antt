-- ===== src/Markdown/Blocks.antt =====
-- `parseMd`: the loop over the lines. Lines that are left stand for the index `i`; `step` is one
-- round, which gives the element pushed, if any, and the lines from the next `i` on.
pub mod Laws
pub mod RoundTrip
use orchis_foundry.Prelude.{
  ℕ, zero, suc, Bool, true, false, not, Option, none, some, List, [], ◌∷◌, map, if◌then◌else◌, Str,
  codes, eqs, starts_with, trim, until, split, join, drop, length,
}
use orchis_foundry.Markdown.Inline.{inline_md}

-- The elements that `parseMd` pushes. The items of a list and a paragraph are HTML.
pub data Block : Type 0 where
  heading : Str → Block
  subheading : Str → Block
  quote : Str → Block
  code_block : Str → Block
  bullets : List Str → Block
  paragraph : Str → Block

-- `i = end + 1`: the line behind the block is passed over, if there is one.
abbrev pub skip_line : List Str → List Str
skip_line [] = []
skip_line (ln ∷ ls) = ls

abbrev pub is_fence : Str → Bool
is_fence ln = starts_with (codes "```") ln

abbrev pub is_item : Str → Bool
is_item ln = starts_with (codes "- ") ln

unfoldable pub step : Str → List Str → Option Block × List Str
unfolding starts_with until join
step ln rest =
    if starts_with (codes "# ") ln
    then (some (heading (drop 2 ln)), rest)
    else if starts_with (codes "## ") ln
    then (some (subheading (drop 3 ln)), rest)
    else if starts_with (codes "> ") ln
    then (some (quote (drop 2 ln)), rest)
    else if is_fence ln
    then (some (code_block (join b'\n' (until is_fence rest).0)), skip_line (until is_fence rest).1)
    else if is_item ln
    then (
      some (
          bullets (map (λ it. inline_md (drop 2 it)) (until (λ l. not (is_item l)) (ln ∷ rest)).0)),
      (until (λ l. not (is_item l)) (ln ∷ rest)).1,
    )
    else if eqs (trim ln) []
    then (none, rest)
    else (some (paragraph (inline_md ln)), rest)

abbrev pub push : Option Block → List Block → List Block
push none out = out
push (some b) out = b ∷ out

-- The first argument is fuel.
pub parse_from : ℕ → List Str → List Block
parse_from zero ls = []
parse_from (suc f) [] = []
parse_from (suc f) (ln ∷ ls) = let r = step ln ls in push r.0 (parse_from f r.1)

-- Whether the loop is over, `i` being past the last line, after at most that many rounds.
pub ends_within : ℕ → List Str → Bool
ends_within zero [] = true
ends_within zero (ln ∷ ls) = false
ends_within (suc f) [] = true
ends_within (suc f) (ln ∷ ls) = ends_within f (step ln ls).1

-- As many rounds as there are lines are enough, since each takes one at least.
pub parse_lines : List Str → List Block
unfolding parse_from
parse_lines ls = parse_from (length ls) ls

unfoldable pub parse_md : Str → List Block
unfolding parse_lines split
parse_md md = parse_lines (split b'\n' md)
