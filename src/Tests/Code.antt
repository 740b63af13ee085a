-- ===== src/Tests/Code.antt =====
-- `highlightRust` at concrete lines.
use orchis_foundry.Prelude.{◌≡◌, refl, codes}
use orchis_foundry.Code.Lexer.{highlight_rust}
use orchis_foundry.Code.Lexer.Shown.{shown, kept, highlight_rust-kept}

whole_line :
    shown (highlight_rust (codes "let x = f(\"a\\\"b\", 12); // end"))
    ≡ codes "let x = f(\"a\\\"b\", 12); // end"
unfolding highlight_rust
whole_line = refl

-- The digit in front of `x1F`, and those of `10u8`, are not shown.
hex_literal : shown (highlight_rust (codes "a = 0x1F + 10u8;")) ≡ codes "a = x1F + u8;"
unfolding highlight_rust
hex_literal = refl

-- Nor is a quote that is not closed on its line.
open_quote : shown (highlight_rust (codes "s = \"abc")) ≡ codes "s = abc"
unfolding highlight_rust
open_quote = refl

highlight_rust-kept_example :
    kept (shown (highlight_rust (codes "a = 0x1F;"))) ≡ kept (codes "a = 0x1F;")
highlight_rust-kept_example = highlight_rust-kept (codes "a = 0x1F;")
