-- ===== src/Tests/Markdown.antt =====
-- `parseMd` and `inlineMd` at concrete texts.
use orchis_foundry.Prelude.{
  List, [], ◌∷◌, ◌++◌, map, ◌≡◌, refl, arith, true, ℕ, ◌≤◌, length, Str, codes, All, join, eqs,
}
use orchis_foundry.Markdown.Inline.{inline_md, escape_html, anchor_open, anchor_attrs}
use orchis_foundry.Markdown.Inline.Tags.{IsSafe}
use orchis_foundry.Markdown.Inline.Safe.{inline_md-IsSafe}
use orchis_foundry.Markdown.Blocks.{
  heading, quote, code_block, bullets, paragraph, parse_md, parse_from, ends_within, step,
}
use orchis_foundry.Markdown.Blocks.Laws.{parse_from-ends, IsSafeBlock, parse_md-IsSafe}
use orchis_foundry.Markdown.Blocks.RoundTrip.{
  Source, heading_src, fence_src, list_src, text_src, Fits, print, rendered, parse_md-join,
}

markdown : Unit {0}
unfolding parse_md step inline_md escape_html eqs
markdown = tt

abbrev sample : Str
sample = codes "# T\n\n- a\n- **b**\n\n> q\n```sh\nx & y\n```\n1 < 2"

sample_blocks :
    parse_md sample
    ≡ heading (codes "T")
      ∷ bullets (codes "a" ∷ codes "<strong>b</strong>" ∷ [])
      ∷ quote (codes "q")
      ∷ code_block (codes "x & y")
      ∷ paragraph (codes "1 &lt; 2")
      ∷ []
unfolding markdown
sample_blocks = refl

-- A fence that is not closed runs to the end of the text.
open_fence : parse_md (codes "```\na\n# b") ≡ code_block (codes "a\n# b") ∷ []
unfolding markdown
open_fence = refl

abbrev script : Str
script = inline_md (codes "<img onerror=x> [a](javascript:x)")

script_inert : script ≡ codes "&lt;img onerror=x&gt; a"
unfolding markdown
script_inert = refl

-- `//host` passes the test for a root-relative URL.
foreign_host :
    inline_md (codes "[a](//evil.example)")
    ≡ anchor_open ++ codes "//evil.example" ++ anchor_attrs ++ codes "a</a>"
unfolding markdown
foreign_host = refl

-- A code span in a URL: the anchor's `href` ends inside the tag of the span.
code_in_url :
    inline_md (codes "[x](/`y`)")
    ≡ anchor_open
      ++ codes "/<code style=\"font-family: var(--font-mono"
      ++ anchor_attrs
      ++ codes
          "x</a>; background: var(--bg-2); padding: 1px 5px; border-radius: 4px; font-size: 0.9em;\">y</code>)"
unfolding markdown
code_in_url = refl

abbrev line : Str
line = codes "a `b` [c](/d)"

inline_md-IsSafe_example : IsSafe (inline_md line)
inline_md-IsSafe_example = inline_md-IsSafe line

parse_md-IsSafe_example : All IsSafeBlock (parse_md sample)
parse_md-IsSafe_example = parse_md-IsSafe sample

abbrev two_lines : List Str
two_lines = codes "# a" ∷ [] ∷ []

parse_from-ends_example :
    (ends_within 9 two_lines ≡ true)
    × ((g : ℕ) → length two_lines ≤ g → parse_from 9 two_lines ≡ parse_from g two_lines)
parse_from-ends_example = parse_from-ends 9 two_lines (omega arith)

abbrev doc : List Source
doc =
    list_src (codes "one") (codes "**two**" ∷ [])
    ∷ fence_src (codes "sh") (codes "# no heading" ∷ [])
    ∷ text_src (codes "end")
    ∷ []

doc-Fits : All Fits (heading_src (codes "T") ∷ doc)
unfolding markdown
doc-Fits = (tt, (tt, ((refl, tt), ((refl, refl, refl, refl, refl, refl), tt))))

parse_md-join_example :
    parse_md (join b'\n' (print (heading_src (codes "T") ∷ doc)))
    ≡ map rendered (heading_src (codes "T") ∷ doc)
parse_md-join_example = parse_md-join (heading_src (codes "T")) doc doc-Fits (omega arith)
