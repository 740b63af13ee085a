-- ===== src/Markdown/Inline.antt =====
-- `escapeHtml` and `inlineMd`. The three patterns are matchers, in the order of the `replace` calls.
pub mod Escape
pub mod Tags
pub mod Parts
pub mod Pass
pub mod Safe
pub mod Ends
use mathlib.Core.List.{flat_map}
use orchis_foundry.Prelude.{
  ℕ, Bool, true, false, ◌&&◌, ◌||◌, Option, none, some, [], ◌∷◌, ◌++◌, ◌==◌, leb, ◌+◌,
  if◌then◌else◌, ◌>>=◌, Str, codes, until, trim,
}
use orchis_foundry.Markdown.Replace.{Matcher, replace_all}

-- The table of `escapeHtml`, with the unit itself where `/[&<>"']/` does not match.
pub escape_unit : ℕ → Str
escape_unit c =
    if c == b'&'
    then codes "&amp;"
    else if c == b'<'
    then codes "&lt;"
    else if c == b'>'
    then codes "&gt;"
    else if c == b'"'
    then codes "&quot;"
    else if c == b'\''
    then codes "&#39;"
    else c ∷ []

unfoldable pub escape_html : Str → Str
unfolding escape_unit flat_map
escape_html s = flat_map escape_unit s

-- `([^x]+)x` at the front of a text: what the group holds, and what stands behind the match.
pub close_group : ℕ → Str × Str → Option (Str × Str)
close_group x ([], rest) = none
close_group x (b ∷ body, []) = none
close_group x (b ∷ body, d ∷ rest) = some (b ∷ body, rest)

pub delimited : ℕ → Str → Option (Str × Str)
unfolding close_group until
delimited x s = close_group x (until (λ c. c == x) s)

-- One given unit at the front.
pub expect : ℕ → Str → Option Str
expect x [] = none
expect x (c ∷ s) = if c == x then some s else none

abbrev pub code_open : Str
code_open =
    codes
      "<code style=\"font-family: var(--font-mono); background: var(--bg-2); padding: 1px 5px; border-radius: 4px; font-size: 0.9em;\">"

abbrev pub code_close : Str
code_close = codes "</code>"

-- What replaces a code span, and a bold one.
pub code_html : Str → Str
code_html body = code_open ++ body ++ code_close

pub bold_html : Str → Str
bold_html body = codes "<strong>" ++ body ++ codes "</strong>"

-- /`([^`]+)`/
pub code_span : Matcher
unfolding delimited expect code_html
code_span s = do a ← expect b'`' s; g ← delimited b'`' a; some (code_html g.0, g.1)

-- /\*\*([^*]+)\*\*/
pub bold_span : Matcher
unfolding delimited expect bold_html
bold_span s = do
  a ← expect b'*' s
  b ← expect b'*' a
  g ← delimited b'*' b
  rest ← expect b'*' g.1
  some (bold_html g.0, rest)

-- `/…/i` compares letters without their case.
pub lower : ℕ → ℕ
lower c = if leb b'A' c && leb c b'Z' then c + 32 else c

-- A prefix in lower case.
pub starts_with_ci : Str → Str → Bool
unfolding lower
starts_with_ci [] s = true
starts_with_ci (p ∷ ps) [] = false
starts_with_ci (p ∷ ps) (c ∷ s) = p == lower c && starts_with_ci ps s

-- /^(https?:\/\/|\/)/i
pub url_ok : Str → Bool
unfolding starts_with_ci
url_ok u =
    starts_with_ci (codes "http://") u
    || starts_with_ci (codes "https://") u
    || starts_with_ci (codes "/") u

abbrev pub anchor_open : Str
anchor_open = codes "<a href=\""

abbrev pub anchor_attrs : Str
anchor_attrs =
    codes
      "\" target=\"_blank\" rel=\"noreferrer noopener\" style=\"color: var(--accent); text-decoration: none;\">"

-- What the callback of the third `replace` returns for a text and a URL.
pub link_html : Str → Str → Str
unfolding url_ok trim
link_html text url =
    let u = trim url in
    if url_ok u then anchor_open ++ (u ++ (anchor_attrs ++ (text ++ codes "</a>"))) else text

-- /\[([^\]]+)\]\(([^)]+)\)/
pub link_span : Matcher
unfolding delimited expect link_html
link_span s = do
  a ← expect b'[' s
  text ← delimited b']' a
  b ← expect b'(' text.1
  url ← delimited b')' b
  some (link_html text.0 url.0, url.1)

unfoldable pub inline_md : Str → Str
unfolding escape_html replace_all code_span bold_span link_span
inline_md s = replace_all link_span (replace_all bold_span (replace_all code_span (escape_html s)))
