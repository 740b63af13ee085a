-- ===== src/Markdown/Inline/Parts.antt =====
-- How a match of each pattern of `inlineMd` comes about, and that what it takes off a safe text is
-- safe.
use orchis_foundry.Prelude.{
  ℕ, some, [], ◌∷◌, ◌++◌, ◌≡◌, arith, Str, All, Lacks, until, until-append, until-stop, ◌==◌,
  ==_iff, >>=-eq-some,
}
use orchis_foundry.Markdown.Inline.{
  close_group, code_html, bold_html, delimited, expect, code_span, bold_span, link_span, link_html,
}
use orchis_foundry.Markdown.Inline.Tags.{plain_heads, plain_tag, Opens, Opens-right, Opens-before}

pub expect_eq : (x : ℕ) (s : Str) {a : Str} → expect x s ≡ some a → s ≡ x ∷ a
unfolding expect
expect_eq x [] h = cc
expect_eq x (c ∷ s) h = ground (arith, ==_iff c x)

close_group_parts :
    (x : ℕ) (b r : Str) {body rest : Str}
    → close_group x (b, r) ≡ some (body, rest)
    → (d : ℕ) × (body ≡ b) × (r ≡ d ∷ rest)
unfolding close_group
close_group_parts x [] r h = cc
close_group_parts x (b ∷ bs) [] h = cc
close_group_parts x (b ∷ bs) (d ∷ r) h = (d, ground arith, ground arith)

-- What a group and the text behind its end make together is the text that was read.
pub delimited_eq :
    (x : ℕ) (s : Str) {body rest : Str} → delimited x s ≡ some (body, rest) → s ≡ body ++ x ∷ rest
unfolding delimited
delimited_eq x s h =
    let (d, eb, er) = close_group_parts x (until (λ c. c == x) s).0 (until (λ c. c == x) s).1 h in
    let ed = (==_iff d x).0 (until-stop (λ c. c == x) s er) in cc (until-append (λ c. c == x) s)

-- What a group or a single unit takes off a safe text leaves it safe.
module _ (x : ℕ) (outside : All (Lacks x) plain_heads) (s body rest : Str) where
  pub group_parts :
      delimited x s ≡ some (body, rest)
      → Opens plain_tag s
      → Opens plain_tag body × Opens plain_tag rest
  group_parts e h =
      let h' = rw (delimited_eq x s e) at h in
      (Opens-before body x rest outside h', (Opens-right plain_tag body (x ∷ rest) h').1)

pub expect_parts :
    (x : ℕ) (s : Str) {rest : Str}
    → expect x s ≡ some rest
    → Opens plain_tag s
    → Opens plain_tag rest
expect_parts x s e h = let h' = rw (expect_eq x s e) at h in h'.1

-- How a match of each pattern comes about.
pub code_span_parts :
    (s : Str) {r rest : Str}
    → code_span s ≡ some (r, rest)
    → (a : Str) × (body : Str) × (expect b'`' s ≡ some a)
      × (delimited b'`' a ≡ some (body, rest))
      × (r ≡ code_html body)
unfolding code_span
code_span_parts s e =
    let (a, ea, e1) = >>=-eq-some (expect b'`' s) _ e in
    let ((body, rest'), eg, e2) = >>=-eq-some (delimited b'`' a) _ e1 in
    (a, body, ea, ground arith, ground arith)

pub bold_span_parts :
    (s : Str) {r rest : Str}
    → bold_span s ≡ some (r, rest)
    → (a : Str) × (b : Str) × (body : Str) × (c : Str) × (expect b'*' s ≡ some a)
      × (expect b'*' a ≡ some b)
      × (delimited b'*' b ≡ some (body, c))
      × (expect b'*' c ≡ some rest)
      × (r ≡ bold_html body)
unfolding bold_span
bold_span_parts s e =
    let (a, ea, e1) = >>=-eq-some (expect b'*' s) _ e in
    let (b, eb, e2) = >>=-eq-some (expect b'*' a) _ e1 in
    let ((body, c), eg, e3) = >>=-eq-some (delimited b'*' b) _ e2 in
    let (rest', er, e4) = >>=-eq-some (expect b'*' c) _ e3 in
    (a, b, body, c, ea, eb, eg, ground arith, ground arith)

pub link_span_parts :
    (s : Str) {r rest : Str}
    → link_span s ≡ some (r, rest)
    → (a : Str) × (text : Str) × (b : Str) × (c : Str) × (url : Str) × (expect b'[' s ≡ some a)
      × (delimited b']' a ≡ some (text, b))
      × (expect b'(' b ≡ some c)
      × (delimited b')' c ≡ some (url, rest))
      × (r ≡ link_html text url)
unfolding link_span
link_span_parts s e =
    let (a, ea, e1) = >>=-eq-some (expect b'[' s) _ e in
    let ((text, b), et, e2) = >>=-eq-some (delimited b']' a) _ e1 in
    let (c, ec, e3) = >>=-eq-some (expect b'(' b) _ e2 in
    let ((url, rest'), eu, e4) = >>=-eq-some (delimited b')' c) _ e3 in
    (a, text, b, c, url, ea, et, ec, ground arith, ground arith)
