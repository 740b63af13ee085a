-- ===== src/Code/Lexer/Digits.antt =====
-- A digit before a letter is lost: `\b\d+\b` does not match it, and no other group does.
use orchis_foundry.Prelude.{
  ℕ, Bool, true, false, not, ◌||◌, none, [], ◌∷◌, ◌++◌, ◌≡◌, refl, ap, ◌∙◌, arith, Str, until,
  length, ◌==◌,
}
use orchis_foundry.Code.Lexer.{
  scan_round, scan_from, scan, push, is_digit, starts_word, word_ends, split_comment, comment_token,
  highlight_rust,
}

-- Behind a digit that is passed over, a word is read as it is read at the start of a line.
scan_round-word :
    (w : Bool) (c : ℕ) (s : Str) → starts_word c ≡ true → scan_round w c s ≡ scan_round false c s
unfolding scan_round
scan_round-word w c s h = rw h

digit_not_word : (d : ℕ) → is_digit d ≡ true → (starts_word d ≡ false) × ((d == b'"') ≡ false)
unfolding is_digit starts_word
digit_not_word d h = (ground arith, ground arith)

word_not_digit : (c : ℕ) → starts_word c ≡ true → is_digit c ≡ false
unfolding is_digit starts_word
word_not_digit c h = ground arith

until_word :
    (c : ℕ) (s : Str) → starts_word c ≡ true → until (λ d. not (is_digit d)) (c ∷ s) ≡ ([], c ∷ s)
unfolding until
until_word c s h = rw (word_not_digit c h)

word_ends_word : (c : ℕ) (s : Str) → starts_word c ≡ true → word_ends (c ∷ s) ≡ false
unfolding word_ends
word_ends_word c s h = rw h

-- A digit before a letter is no number.
scan_round-digit :
    (d c : ℕ) (s : Str)
    → is_digit d ≡ true
    → starts_word c ≡ true
    → scan_round false d (c ∷ s) ≡ record { pushed = none; rest = c ∷ s; behind_word = true }
unfolding scan_round
scan_round-digit d c s hd hc =
    rw (
      (digit_not_word d hd).0,
      (digit_not_word d hd).1,
      hd,
      until_word c s hc,
      word_ends_word c s hc,
    )

scan-digit :
    (d c : ℕ) (s : Str) → is_digit d ≡ true → starts_word c ≡ true → scan (d ∷ c ∷ s) ≡ scan (c ∷ s)
unfolding scan
scan-digit d c s hd hc =
    ap (λ r. push r.pushed (scan_from (length (c ∷ s)) r.behind_word r.rest))
      (scan_round-digit d c s hd hc)
    ∙ ap (λ r. push r.pushed (scan_from (length s) r.behind_word r.rest))
        (scan_round-word true c s hc)

not_slash : (c : ℕ) → (starts_word c || is_digit c) ≡ true → (c == b'/') ≡ false
unfolding starts_word is_digit
not_slash c h = ground arith

-- A unit that is no slash stays in front of the comment.
split_comment-cons :
    (c d : ℕ) (s : Str)
    → (c == b'/') ≡ false
    → split_comment (c ∷ d ∷ s) ≡ (c ∷ (split_comment (d ∷ s)).0, (split_comment (d ∷ s)).1)
unfolding split_comment
split_comment-cons c d s h = rw h

split_comment_head :
    (c : ℕ) (s : Str) → (c == b'/') ≡ false → (r : Str) × ((split_comment (c ∷ s)).0 ≡ c ∷ r)
unfolding split_comment
split_comment_head c [] h = ([], refl)
split_comment_head c (d ∷ s) h =
    ((split_comment (d ∷ s)).0, ap (λ p. p.0) (split_comment-cons c d s h))

-- A digit that stands right before a letter or `_` at the start of a line, as in `0x1F` or `2d`, is
-- not shown: the tokens are those of the line without it.
highlight_rust-digit :
    (d c : ℕ) (s : Str)
    → is_digit d ≡ true
    → starts_word c ≡ true
    → highlight_rust (d ∷ c ∷ s) ≡ highlight_rust (c ∷ s)
unfolding highlight_rust
highlight_rust-digit d c s hd hc =
    let nd = not_slash d (rw hd (ground arith)) in
    let nc = not_slash c (rw hc refl) in
    let (r, e) = split_comment_head c s nc in
    ap (λ p. scan p.0 ++ comment_token p.1) (split_comment-cons d c s nd)
    ∙ ap (λ b. b ++ comment_token (split_comment (c ∷ s)).1) (rw e (scan-digit d c r hd hc))
