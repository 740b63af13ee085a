-- ===== src/Markdown/Inline/Ends.antt =====
-- The scans of `inlineMd` end, and leave plain text alone.
use mathlib.Core.List.{flat_map}
use orchis_foundry.Prelude.{
  ℕ, zero, suc, ◌≤◌, ◌<◌, none, some, [], ◌∷◌, ◌++◌, ◌≡◌, ◌≢◌, refl, ap, ◌∙◌, arith, Str, length,
  length-append, All,
}
use orchis_foundry.Markdown.Replace.{
  Matcher, Consumes, replace_from, replace_all, replace_from-enough,
}
use orchis_foundry.Markdown.Inline.Parts.{
  expect_eq, delimited_eq, code_span_parts, bold_span_parts, link_span_parts,
}
use orchis_foundry.Markdown.Inline.{
  escape_unit, escape_html, code_span, bold_span, link_span, inline_md, delimited, expect,
}

length-expect : (x : ℕ) (s : Str) {r : Str} → expect x s ≡ some r → length s ≡ suc (length r)
length-expect x s e = ap length (expect_eq x s e)

length-delimited :
    (x : ℕ) (s : Str) {body rest : Str} → delimited x s ≡ some (body, rest) → length rest < length s
length-delimited x s {body} {rest} e =
    omega (arith, ap length (delimited_eq x s e), length-append body (x ∷ rest))

code_span-Consumes : Consumes code_span
code_span-Consumes s r rest e =
    let (a, body, ea, eg, er) = code_span_parts s e in
    omega (arith, length-expect b'`' s ea, length-delimited b'`' a eg)

bold_span-Consumes : Consumes bold_span
bold_span-Consumes s r rest e =
    let (a, b, body, c, ea, eb, eg, ec, er) = bold_span_parts s e in
    omega (
      arith,
      length-expect b'*' s ea,
      length-expect b'*' a eb,
      length-delimited b'*' b eg,
      length-expect b'*' c ec,
    )

link_span-Consumes : Consumes link_span
link_span-Consumes s r rest e =
    let (a, text, b, c, url, ea, et, eb, eu, er) = link_span_parts s e in
    omega (
      arith,
      length-expect b'[' s ea,
      length-delimited b']' a et,
      length-expect b'(' b eb,
      length-delimited b')' c eu,
    )

-- With any fuel from the length of the text on, each of the three scans gives what `replace` gives:
-- none of them is cut off.
replace_all-enough :
    (f : ℕ) (s : Str)
    → length s ≤ f
    → (replace_from f code_span s ≡ replace_all code_span s)
      × (replace_from f bold_span s ≡ replace_all bold_span s)
      × (replace_from f link_span s ≡ replace_all link_span s)
unfolding replace_all
replace_all-enough f s h =
    let n : length s ≤ length s = omega arith in
    (
      replace_from-enough code_span code_span-Consumes f (length s) s h n,
      replace_from-enough bold_span bold_span-Consumes f (length s) s h n,
      replace_from-enough link_span link_span-Consumes f (length s) s h n,
    )

-- A unit that neither `escapeHtml` nor a pattern touches.
abbrev IsPlain : ℕ → Type 0
IsPlain c =
    (c ≢ b'&')
    × (c ≢ b'<')
    × (c ≢ b'>')
    × (c ≢ b'"')
    × (c ≢ b'\'')
    × (c ≢ b'`')
    × (c ≢ b'*')
    × (c ≢ b'[')

escape_html_plain : (s : Str) → All IsPlain s → escape_html s ≡ s
unfolding escape_html
escape_html_plain [] h = refl
escape_html_plain (c ∷ s) (hc, h) =
    ap (λ u. u ++ flat_map escape_unit s) (escape_unit_plain c hc)
    ∙ ap (c ∷◌) (escape_html_plain s h)
  where
    escape_unit_plain : (c : ℕ) → IsPlain c → escape_unit c ≡ c ∷ []
    escape_unit_plain c h = ground arith

module _ (m : Matcher) (fails : (c : ℕ) (s : Str) → IsPlain c → m (c ∷ s) ≡ none) where
  replace_from_plain : (f : ℕ) (s : Str) → All IsPlain s → replace_from f m s ≡ s
  unfolding replace_from
  replace_from_plain zero s h = refl
  replace_from_plain (suc f) [] h = refl
  replace_from_plain (suc f) (c ∷ s) (hc, h) =
      rw (fails c s hc, replace_from) (ap (c ∷◌) (replace_from_plain f s h))

  replace_all_plain : (s : Str) → All IsPlain s → replace_all m s ≡ s
  unfolding replace_all
  replace_all_plain s h = replace_from_plain (length s) s h

expect_fails : (x c : ℕ) (s : Str) → c ≢ x → expect x (c ∷ s) ≡ none
unfolding expect
expect_fails x c s h = ground arith

code_span_plain : (c : ℕ) (s : Str) → IsPlain c → code_span (c ∷ s) ≡ none
unfolding code_span
code_span_plain c s h = rw (expect_fails b'`' c s h.5)

bold_span_plain : (c : ℕ) (s : Str) → IsPlain c → bold_span (c ∷ s) ≡ none
unfolding bold_span
bold_span_plain c s h = rw (expect_fails b'*' c s h.6)

link_span_plain : (c : ℕ) (s : Str) → IsPlain c → link_span (c ∷ s) ≡ none
unfolding link_span
link_span_plain c s h = rw (expect_fails b'[' c s h.7)

-- A line with no HTML character and no mark of Markdown is rendered as it stands.
inline_md_plain : (s : Str) → All IsPlain s → inline_md s ≡ s
unfolding inline_md
inline_md_plain s h =
    ap (λ t. replace_all link_span (replace_all bold_span (replace_all code_span t)))
      (escape_html_plain s h)
    ∙ ap (λ t. replace_all link_span (replace_all bold_span t))
        (replace_all_plain code_span code_span_plain s h)
    ∙ ap (λ t. replace_all link_span t) (replace_all_plain bold_span bold_span_plain s h)
    ∙ replace_all_plain link_span link_span_plain s h
