-- ===== src/Markdown/Inline/Escape.antt =====
-- Theorems on `escapeHtml`.
use orchis_foundry.Prelude.{ℕ, [], ◌∷◌, ◌≢◌, arith, Str, All, All-append}
use orchis_foundry.Markdown.Inline.{escape_unit, escape_html}

-- Neither an angle bracket nor a quote.
abbrev pub IsInert : ℕ → Type 0
IsInert c = (c ≢ b'<') × (c ≢ b'>') × (c ≢ b'"') × (c ≢ b'\'')

escape_unit-IsInert : (c : ℕ) → All IsInert (escape_unit c)
unfolding escape_unit
escape_unit-IsInert c = ground arith

-- Escaped text holds no angle bracket, no double quote and no apostrophe.
pub escape_html-IsInert : (s : Str) → All IsInert (escape_html s)
unfolding escape_html
escape_html-IsInert [] = tt
escape_html-IsInert (c ∷ s) =
    All-append IsInert (escape_unit c) _ (escape_unit-IsInert c) (escape_html-IsInert s)
