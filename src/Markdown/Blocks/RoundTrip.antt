-- ===== src/Markdown/Blocks/RoundTrip.antt =====
-- A document printed block by block is parsed back to its blocks.
use orchis_foundry.Prelude.{
  ℕ, zero, suc, ◌≤◌, ◌<◌, Bool, true, false, not, some, List, [], ◌∷◌, ◌++◌, map, ◌≡◌, ◌≢◌, ◌∙◌,
  refl, ap, arith, Option, Str, codes, starts_with, eqs, trim, until, length, length-append, All,
  Lacks, drop, join, split-join,
}
use orchis_foundry.Markdown.Inline.{inline_md}
use orchis_foundry.Markdown.Blocks.{
  Block, heading, subheading, quote, code_block, bullets, paragraph, is_fence, is_item, step,
  parse_from, parse_lines, parse_md,
}

-- What an author writes. A fence carries the language that may stand behind its mark.
pub data Source : Type 0 where
  heading_src : Str → Source
  subheading_src : Str → Source
  quote_src : Str → Source
  fence_src : Str → List Str → Source
  list_src : Str → List Str → Source
  text_src : Str → Source

abbrev item_line : Str → Str
item_line t = codes "- " ++ t

-- The lines of a block, and a blank line behind them.
abbrev lines_of : Source → List Str → List Str
lines_of (heading_src t) rest = (codes "# " ++ t) ∷ [] ∷ rest
lines_of (subheading_src t) rest = (codes "## " ++ t) ∷ [] ∷ rest
lines_of (quote_src t) rest = (codes "> " ++ t) ∷ [] ∷ rest
lines_of (fence_src lang body) rest = (codes "```" ++ lang) ∷ (body ++ codes "```" ∷ [] ∷ rest)
lines_of (list_src t ts) rest = map item_line (t ∷ ts) ++ [] ∷ rest
lines_of (text_src t) rest = t ∷ [] ∷ rest

abbrev pub print : List Source → List Str
print [] = []
print (b ∷ doc) = lines_of b (print doc)

-- The block that each is meant to become.
abbrev pub rendered : Source → Block
rendered (heading_src t) = heading t
rendered (subheading_src t) = subheading t
rendered (quote_src t) = quote t
rendered (fence_src lang body) = code_block (join b'\n' body)
rendered (list_src t ts) = bullets (map inline_md (t ∷ ts))
rendered (text_src t) = paragraph (inline_md t)

-- A line with no mark of another block, and not blank.
abbrev IsText : Str → Type 0
IsText t =
    (starts_with (codes "# ") t ≡ false)
    × (starts_with (codes "## ") t ≡ false)
    × (starts_with (codes "> ") t ≡ false)
    × (is_fence t ≡ false)
    × (is_item t ≡ false)
    × (eqs (trim t) [] ≡ false)

-- No line of a fence closes it, and a text line is one.
abbrev pub Fits : Source → Type 0
Fits (fence_src lang body) = All (λ l. is_fence l ≡ false) body
Fits (text_src t) = IsText t
Fits _ = Unit

until-append_stop {ℓ} :
    {A : Type ℓ} (stop : A → Bool) (s : List A) (d : A) (t : List A)
    → All (λ c. stop c ≡ false) s
    → stop d ≡ true
    → until stop (s ++ d ∷ t) ≡ (s, d ∷ t)
unfolding until
until-append_stop stop [] d t h e = rw e
until-append_stop stop (c ∷ s) d t (f, h) e = rw f (rw (until-append_stop stop s d t h e))

blank_line : (f : ℕ) (ls : List Str) → parse_from (suc f) ([] ∷ ls) ≡ parse_from f ls
unfolding parse_from step trim eqs
blank_line f ls = refl

items_stop : (ts : List Str) → All (λ l. not (is_item l) ≡ false) (map item_line ts)
unfolding starts_with
items_stop [] = tt
items_stop (t ∷ ts) = (refl, items_stop ts)

items_html :
    (ts : List Str) → map (λ it. inline_md (drop 2 it)) (map item_line ts) ≡ map inline_md ts
items_html [] = refl
items_html (t ∷ ts) = ap (inline_md t ∷◌) (items_html ts)

-- One round reads the lines of one block.
step_heading : (t : Str) (ls : List Str) → step (codes "# " ++ t) ls ≡ (some (heading t), ls)
unfolding step starts_with
step_heading t ls = refl

step_subheading : (t : Str) (ls : List Str) → step (codes "## " ++ t) ls ≡ (some (subheading t), ls)
unfolding step starts_with
step_subheading t ls = refl

step_quote : (t : Str) (ls : List Str) → step (codes "> " ++ t) ls ≡ (some (quote t), ls)
unfolding step starts_with
step_quote t ls = refl

step_fence :
    (lang : Str) (body rest : List Str)
    → All (λ l. is_fence l ≡ false) body
    → step (codes "```" ++ lang) (body ++ codes "```" ∷ rest)
      ≡ (some (code_block (join b'\n' body)), rest)
unfolding step
step_fence lang body rest h =
    rw (until-append_stop is_fence body (codes "```") rest h (unfold starts_with in refl))
      (unfold starts_with in refl)

bulleted : List Str × List Str → Option Block × List Str
bulleted (items, ls) = (some (bullets (map (λ it. inline_md (drop 2 it)) items)), ls)

step_item :
    (t : Str) (ls : List Str)
    → step (item_line t) ls ≡ bulleted (until (λ l. not (is_item l)) (item_line t ∷ ls))
unfolding step starts_with bulleted
step_item t ls = refl

step_list :
    (t : Str) (ts rest : List Str)
    → step (item_line t) (map item_line ts ++ [] ∷ rest)
      ≡ (some (bullets (map inline_md (t ∷ ts))), [] ∷ rest)
unfolding bulleted
step_list t ts rest =
    step_item t _
    ∙ ap bulleted (
        until-append_stop (λ l. not (is_item l)) (map item_line (t ∷ ts)) [] rest
          (items_stop (t ∷ ts)) (unfold starts_with in refl))
    ∙ ap (λ items. (some (bullets items), [] ∷ rest)) (items_html (t ∷ ts))

step_text : (t : Str) (ls : List Str) → IsText t → step t ls ≡ (some (paragraph (inline_md t)), ls)
unfolding step
step_text t ls (h1, h2, h3, h4, h5, h6) = rw (h1, h2, h3, h4, h5, h6)

-- The first line of a block, and the lines behind it.
abbrev first_line : Source → Str
first_line (heading_src t) = codes "# " ++ t
first_line (subheading_src t) = codes "## " ++ t
first_line (quote_src t) = codes "> " ++ t
first_line (fence_src lang body) = codes "```" ++ lang
first_line (list_src t ts) = item_line t
first_line (text_src t) = t

abbrev later_lines : Source → List Str → List Str
later_lines (fence_src lang body) rest = body ++ codes "```" ∷ [] ∷ rest
later_lines (list_src t ts) rest = map item_line ts ++ [] ∷ rest
later_lines _ rest = [] ∷ rest

lines_of_eq : (b : Source) (rest : List Str) → lines_of b rest ≡ first_line b ∷ later_lines b rest
lines_of_eq (heading_src t) rest = refl
lines_of_eq _ rest = refl

step_block :
    (b : Source) (rest : List Str)
    → Fits b
    → step (first_line b) (later_lines b rest) ≡ (some (rendered b), [] ∷ rest)
step_block (heading_src t) rest h = step_heading t _
step_block (subheading_src t) rest h = step_subheading t _
step_block (quote_src t) rest h = step_quote t _
step_block (fence_src lang body) rest h = step_fence lang body _ h
step_block (list_src t ts) rest h = step_list t ts rest
step_block (text_src t) rest h = step_text t _ h

length-append_cons {ℓ} :
    {A : Type ℓ} (s : List A) (a : A) (t : List A) → length t < length (s ++ a ∷ t)
length-append_cons s a t = omega (arith, length-append s (a ∷ t))

length-later_lines : (b : Source) (rest : List Str) → length rest < length (later_lines b rest)
length-later_lines (heading_src t) rest = omega arith
length-later_lines (fence_src lang body) rest =
    omega (arith, length-append body (codes "```" ∷ [] ∷ rest))
length-later_lines (list_src t ts) rest = length-append_cons (map item_line ts) [] rest
length-later_lines _ rest = omega arith

length-lines_of : (b : Source) (rest : List Str) → suc (length rest) < length (lines_of b rest)
length-lines_of b rest = rw lines_of_eq (omega (arith, length-later_lines b rest))

parse_block :
    (b : Source) (rest : List Str) (f : ℕ)
    → Fits b
    → parse_from (suc f) (lines_of b rest) ≡ rendered b ∷ parse_from f ([] ∷ rest)
parse_block b rest f h = rw lines_of_eq (unfold parse_from in rw (step_block b rest h))

parse_from-print :
    (doc : List Source) (f : ℕ)
    → All Fits doc
    → length (print doc) ≤ f
    → parse_from f (print doc) ≡ map rendered doc
unfolding parse_from
parse_from-print [] zero h e = refl
parse_from-print [] (suc f) h e = refl
parse_from-print (b ∷ doc) zero (hb, h) e = absurd (omega (arith, length-lines_of b (print doc)))
parse_from-print (b ∷ doc) (suc zero) (hb, h) e =
    absurd (omega (arith, length-lines_of b (print doc)))
parse_from-print (b ∷ doc) (suc (suc f)) (hb, h) e =
    let longer = length-lines_of b (print doc) in
    parse_block b (print doc) (suc f) hb
    ∙ ap (rendered b ∷◌) (blank_line f (print doc) ∙ parse_from-print doc f h (omega arith))

-- A printed document is parsed to the blocks that its author meant, whatever their texts hold.
parse_lines-print : (doc : List Source) → All Fits doc → parse_lines (print doc) ≡ map rendered doc
unfolding parse_lines
parse_lines-print doc h = parse_from-print doc (length (print doc)) h (omega arith)

-- The text of a printed document of one block or more, each of which fits, and whose lines hold no line
-- feed, is parsed to the blocks that its author meant.
pub parse_md-join :
    (b : Source) (doc : List Source)
    → All Fits (b ∷ doc)
    → All (Lacks b'\n') (print (b ∷ doc))
    → parse_md (join b'\n' (print (b ∷ doc))) ≡ map rendered (b ∷ doc)
unfolding parse_md
parse_md-join b doc h l =
    ap parse_lines (split-join b'\n' (print (b ∷ doc)) lines l) ∙ parse_lines-print (b ∷ doc) h
  where
    lines : print (b ∷ doc) ≢ []
    lines e = absurd (omega (arith, length-lines_of b (print doc), ap length e))
