-- ===== src/Markdown/Inline/Safe.antt =====
-- The output of `inlineMd` holds no tag but the trusted ones.
use orchis_foundry.Prelude.{
  [], ◌∷◌, ◌++◌, inl, inr, arith, Str, codes, All, Lacks, Bool-cases, trim,
}
use orchis_foundry.Markdown.Inline.{
  code_html, bold_html, code_span, bold_span, link_span, link_html, url_ok, escape_html, inline_md,
  code_open, code_close, anchor_attrs,
}
use orchis_foundry.Markdown.Inline.Escape.{IsInert, escape_html-IsInert}
use orchis_foundry.Markdown.Inline.Tags.{
  plain_heads, plain_tag, trusted_tag, Opens, IsSafe, plain_tag-append, trusted_tag-append,
  Opens-append, Opens-of_Lacks, IsSafe-of_plain, Opens-trim, code_open-Opens, strong-Opens,
  anchor_end-IsSafe, anchor_open-IsSafe,
}
use orchis_foundry.Markdown.Inline.Parts.{
  expect_eq, group_parts, expect_parts, code_span_parts, bold_span_parts, link_span_parts,
}
use orchis_foundry.Markdown.Inline.Pass.{IsPass, replace_all-Opens}

no_star : All (Lacks b'*') plain_heads
no_star = omega arith

no_tick : All (Lacks b'`') plain_heads
no_tick = omega arith

no_bracket :
    All (Lacks b'[') plain_heads × All (Lacks b']') plain_heads × All (Lacks b')') plain_heads
no_bracket = omega arith

code_html-Opens : (body : Str) → Opens plain_tag body → Opens plain_tag (code_html body)
unfolding code_html
code_html-Opens body h =
    Opens-append plain_tag plain_tag-append code_open (body ++ code_close) code_open-Opens.0
      (Opens-append plain_tag plain_tag-append body code_close h code_open-Opens.1)

bold_html-Opens : (body : Str) → Opens plain_tag body → Opens plain_tag (bold_html body)
unfolding bold_html
bold_html-Opens body h =
    Opens-append plain_tag plain_tag-append (codes "<strong>") (body ++ codes "</strong>")
      strong-Opens.0
      (Opens-append plain_tag plain_tag-append body (codes "</strong>") h strong-Opens.1)

link_html-IsSafe :
    (text url : Str) → Opens plain_tag text → Opens plain_tag url → IsSafe (link_html text url)
unfolding link_html
link_html-IsSafe text url ht hu = elim (Bool-cases (url_ok (trim url))) [
  | inl ok ↦ rw ok (
      anchor_open-IsSafe (trim url) (anchor_attrs ++ (text ++ codes "</a>")) ok (
        joined (trim url) (anchor_attrs ++ (text ++ codes "</a>"))
          (IsSafe-of_plain (trim url) (Opens-trim url hu))
          (joined anchor_attrs (text ++ codes "</a>") anchor_end-IsSafe.0
            (joined text (codes "</a>") (IsSafe-of_plain text ht) anchor_end-IsSafe.1))))
  | inr refused ↦ rw refused (IsSafe-of_plain text ht)
]
  where
    joined : (s t : Str) → IsSafe s → IsSafe t → IsSafe (s ++ t)
    joined = Opens-append trusted_tag trusted_tag-append

code-IsPass : IsPass b'`' code_span plain_tag
code-IsPass = record {
  opens_at =
      λ s r rest e. let (a, body, ea, eg, er) = code_span_parts s e in (a, expect_eq b'`' s ea);
  rest_of = λ s r rest h e.
      let (a, body, ea, eg, er) = code_span_parts s e in
      (group_parts b'`' no_tick a body rest eg (expect_parts b'`' s ea h)).1;
  safe_of = λ s r rest h e.
      let (a, body, ea, eg, er) = code_span_parts s e in
      rw er (
        code_html-Opens body
          (group_parts b'`' no_tick a body rest eg (expect_parts b'`' s ea h)).0);
  append = plain_tag-append;
  plain = λ q h. h;
}

bold-IsPass : IsPass b'*' bold_span plain_tag
bold-IsPass = record {
  opens_at = λ s r rest e.
      let (a, b, body, c, ea, eb, eg, ec, er) = bold_span_parts s e in (a, expect_eq b'*' s ea);
  rest_of = λ s r rest h e.
      let (a, b, body, c, ea, eb, eg, ec, er) = bold_span_parts s e in
      let hb = expect_parts b'*' a eb (expect_parts b'*' s ea h) in
      expect_parts b'*' c ec (group_parts b'*' no_star b body c eg hb).1;
  safe_of = λ s r rest h e.
      let (a, b, body, c, ea, eb, eg, ec, er) = bold_span_parts s e in
      let hb = expect_parts b'*' a eb (expect_parts b'*' s ea h) in
      rw er (bold_html-Opens body (group_parts b'*' no_star b body c eg hb).0);
  append = plain_tag-append;
  plain = λ q h. h;
}

link-IsPass : IsPass b'[' link_span trusted_tag
link-IsPass = record {
  opens_at = λ s r rest e.
      let (a, text, b, c, url, ea, et, eb, eu, er) = link_span_parts s e in
      (a, expect_eq b'[' s ea);
  rest_of = λ s r rest h e.
      let (a, text, b, c, url, ea, et, eb, eu, er) = link_span_parts s e in
      let ht = group_parts b']' no_bracket.1 a text b et (expect_parts b'[' s ea h) in
      (group_parts b')' no_bracket.2 c url rest eu (expect_parts b'(' b eb ht.1)).1;
  safe_of = λ s r rest h e.
      let (a, text, b, c, url, ea, et, eb, eu, er) = link_span_parts s e in
      let ht = group_parts b']' no_bracket.1 a text b et (expect_parts b'[' s ea h) in
      let hu = group_parts b')' no_bracket.2 c url rest eu (expect_parts b'(' b eb ht.1) in
      rw er (link_html-IsSafe text url ht.0 hu.0);
  append = trusted_tag-append;
  plain = λ q h. ground arith;
}

escape_html-Opens : (s : Str) → Opens plain_tag (escape_html s)
escape_html-Opens s =
    Opens-of_Lacks plain_tag (escape_html s) (lacks (escape_html s) (escape_html-IsInert s))
  where
    lacks : (t : Str) → All IsInert t → Lacks b'<' t
    lacks [] h = tt
    lacks (c ∷ t) (h, hs) = (h.0, lacks t hs)

-- Whatever the text, every `<` of its rendered line opens one of the trusted tags: code, bold, an end
-- tag, or an anchor whose URL begins with `/`, `http://` or `https://`.
pub inline_md-IsSafe : (s : Str) → IsSafe (inline_md s)
unfolding inline_md
inline_md-IsSafe s = replace_all-Opens b'[' link_span trusted_tag link-IsPass no_bracket.0 _ (
    replace_all-Opens b'*' bold_span plain_tag bold-IsPass no_star _
      (replace_all-Opens b'`' code_span plain_tag code-IsPass no_tick _ (escape_html-Opens s)))
