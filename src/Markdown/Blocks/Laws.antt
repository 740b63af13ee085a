-- ===== src/Markdown/Blocks/Laws.antt =====
-- The loop of `parseMd` ends, and what it hands to the page as HTML is safe.
use orchis_foundry.Prelude.{
  ℕ, zero, suc, ◌≤◌, Bool, true, false, not, Option, none, some, List, [], ◌∷◌, map, ◌≡◌, refl, ap,
  arith, if◌then◌else◌, Str, codes, starts_with, eqs, trim, until, length-until, length, All, drop,
}
use orchis_foundry.Markdown.Inline.{inline_md}
use orchis_foundry.Markdown.Inline.Tags.{IsSafe}
use orchis_foundry.Markdown.Inline.Safe.{inline_md-IsSafe}
use orchis_foundry.Markdown.Blocks.{
  Block, bullets, paragraph, skip_line, is_fence, is_item, step, push, parse_from, ends_within,
  parse_md,
}

length-skip_line : (ls : List Str) → length (skip_line ls) ≤ length ls
length-skip_line [] = omega arith
length-skip_line (l ∷ ls) = omega arith

-- Behind an item, the loop over the items has passed one line at least.
length-until_item :
    (ln : Str) (ls : List Str)
    → is_item ln ≡ true
    → length (until (λ l. not (is_item l)) (ln ∷ ls)).1 ≤ length ls
unfolding until
length-until_item ln ls h = rw h (length-until (λ l. not (is_item l)) ls)

-- Each round takes a line.
length-step : (ln : Str) (ls : List Str) → length (step ln ls).1 ≤ length ls
unfolding step
length-step ln ls = ground (
  arith,
  length-until is_fence ls,
  length-skip_line (until is_fence ls).1,
  length-until_item ln ls,
)

-- With more fuel than there are lines the result is the same.
parse_from-enough :
    (f g : ℕ) (ls : List Str) → length ls ≤ f → length ls ≤ g → parse_from f ls ≡ parse_from g ls
unfolding parse_from
parse_from-enough zero zero ls hf hg = refl
parse_from-enough zero (suc g) [] hf hg = refl
parse_from-enough zero (suc g) (l ∷ ls) hf hg = absurd (omega arith)
parse_from-enough (suc f) zero [] hf hg = refl
parse_from-enough (suc f) zero (l ∷ ls) hf hg = absurd (omega arith)
parse_from-enough (suc f) (suc g) [] hf hg = refl
parse_from-enough (suc f) (suc g) (l ∷ ls) hf hg =
    let shorter = length-step l ls in
    ap (push (step l ls).0) (parse_from-enough f g (step l ls).1 (omega arith) (omega arith))

-- For every document the loop ends within as many rounds as there are lines, and from there on more rounds
-- give the same blocks: none is cut off.
pub parse_from-ends :
    (f : ℕ) (ls : List Str)
    → length ls ≤ f
    → (ends_within f ls ≡ true) × ((g : ℕ) → length ls ≤ g → parse_from f ls ≡ parse_from g ls)
unfolding ends_within
parse_from-ends f ls h = (ends f ls h, λ g k. parse_from-enough f g ls h k)
  where
    ends : (f : ℕ) (ls : List Str) → length ls ≤ f → ends_within f ls ≡ true
    ends zero [] h = refl
    ends zero (l ∷ ls) h = absurd (omega arith)
    ends (suc f) [] h = refl
    ends (suc f) (l ∷ ls) h = let shorter = length-step l ls in ends f (step l ls).1 (omega arith)

-- What a block hands to `dangerouslySetInnerHTML`.
abbrev html_of : Block → List Str
html_of (bullets items) = items
html_of (paragraph html) = html ∷ []
html_of _ = []

abbrev pub IsSafeBlock : Block → Type 0
IsSafeBlock b = All IsSafe (html_of b)

map-IsSafe : (items : List Str) → All IsSafe (map (λ it. inline_md (drop 2 it)) items)
map-IsSafe [] = tt
map-IsSafe (it ∷ items) = (inline_md-IsSafe (drop 2 it), map-IsSafe items)

abbrev Pushes : Option Block × List Str → Type 0
Pushes (none, ls) = Unit
Pushes (some b, ls) = IsSafeBlock b

-- A choice keeps what both sides have.
if-Pushes :
    (t : Bool) (p q : Option Block × List Str) → Pushes p → Pushes q → Pushes (if t then p else q)
if-Pushes true p q hp hq = hp
if-Pushes false p q hp hq = hq

step-IsSafe : (ln : Str) (ls : List Str) → Pushes (step ln ls)
unfolding step
step-IsSafe ln ls = if-Pushes (starts_with (codes "# ") ln) _ _ tt (
    if-Pushes (starts_with (codes "## ") ln) _ _ tt (
      if-Pushes (starts_with (codes "> ") ln) _ _ tt (
        if-Pushes (is_fence ln) _ _ tt (
          if-Pushes (is_item ln) _ _ (map-IsSafe _)
            (if-Pushes (eqs (trim ln) []) _ _ tt (inline_md-IsSafe ln, tt))))))

push-IsSafe :
    (r : Option Block × List Str) (out : List Block)
    → Pushes r
    → All IsSafeBlock out
    → All IsSafeBlock (push r.0 out)
push-IsSafe (none, ls) out h hs = hs
push-IsSafe (some b, ls) out h hs = (h, hs)

parse_from-IsSafe : (f : ℕ) (ls : List Str) → All IsSafeBlock (parse_from f ls)
unfolding parse_from
parse_from-IsSafe zero ls = tt
parse_from-IsSafe (suc f) [] = tt
parse_from-IsSafe (suc f) (l ∷ ls) =
    push-IsSafe (step l ls) _ (step-IsSafe l ls) (parse_from-IsSafe f (step l ls).1)

-- Whatever the document, every piece of HTML that its blocks hand to the page is safe.
pub parse_md-IsSafe : (md : Str) → All IsSafeBlock (parse_md md)
unfolding parse_md
parse_md-IsSafe md = parse_from-IsSafe _ _
