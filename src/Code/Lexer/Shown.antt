-- ===== src/Code/Lexer/Shown.antt =====
-- What `highlightRust` shows of a line: the texts of its tokens, one behind the other.
use orchis_foundry.Prelude.{
  ℕ, zero, suc, Bool, true, false, not, ◌&&◌, ◌||◌, Option, none, some, List, [], ◌∷◌, ◌++◌, ◌≡◌,
  refl, sym, ap, ◌∙◌, arith, inl, inr, Str, until, until-append, length, is_space, Option-cases,
  filter, filter-append, ◌==◌, if◌then◌else◌, append_assoc, append-nil, ◌≤◌,
}
use orchis_foundry.Code.Lexer.Laws.{close_string_eq, length-scan_round}
use orchis_foundry.Code.Lexer.{
  Token, Round, close_string, string_round, number_round, scan_round, scan_from, scan, push,
  in_word, is_digit, is_mark, starts_word, split_comment, comment_token, highlight_rust,
}

abbrev pub shown : List Token → Str
shown [] = []
shown (t ∷ ts) = t.text ++ shown ts

shown-append : (ts us : List Token) → shown (ts ++ us) ≡ shown ts ++ shown us
shown-append [] us = refl
shown-append (t ∷ ts) us = rw (shown-append ts us, append_assoc)

-- A unit that the highlighter never loses.
unfoldable pub is_kept : ℕ → Bool
is_kept c = not (is_digit c) && not (c == b'"')

-- A round that pushes a token shows all that it takes; one that passes a unit over loses a digit or
-- a double quote.
abbrev Covers : ℕ → Str → Option Token → Str → Type 0
Covers c s (some t) rest = c ∷ s ≡ t.text ++ rest
Covers c s none rest = (rest ≡ s) × (is_kept c ≡ false)

abbrev CoversBy : ℕ → Str → Round → Type 0
CoversBy c s r = Covers c s r.pushed r.rest

if-Covers :
    (t : Bool) (c : ℕ) (s : Str) (p q : Round)
    → (t ≡ true → CoversBy c s p)
    → (t ≡ false → CoversBy c s q)
    → CoversBy c s (if t then p else q)
if-Covers true c s p q hp hq = hp refl
if-Covers false c s p q hp hq = hq refl

run_covers :
    (stop : ℕ → Bool) (c : ℕ) (s : Str) → c ∷ s ≡ (c ∷ (until stop s).0) ++ (until stop s).1
run_covers stop c s = ap (c ∷◌) (sym (until-append stop s))

quote_lost : (c : ℕ) → (c == b'"') ≡ true → is_kept c ≡ false
unfolding is_kept
quote_lost c h = ground arith

digit_lost : (c : ℕ) → is_digit c ≡ true → is_kept c ≡ false
unfolding is_kept
digit_lost c h = ground arith

string_round-Covers :
    (c : ℕ) (s : Str) → (c == b'"') ≡ true → CoversBy c s (string_round s (close_string false s))
unfolding string_round
string_round-Covers c s h = elim (Option-cases (close_string false s)) [
  | inl e ↦ rw e (refl, quote_lost c h)
  | inr ((b, r), e) ↦ rw e (ground (arith, close_string_eq false s {body = b} {rest = r} e))
]

number_round-Covers :
    (w : Bool) (c : ℕ) (s : Str) → is_digit c ≡ true → CoversBy c s (number_round w c s)
unfolding number_round
number_round-Covers w c s h = ground (arith, run_covers (λ d. not (is_digit d)) c s, digit_lost c h)

is_mark_eq :
    (c : ℕ) → is_mark c ≡ (not (starts_word c || is_digit c) && not (c == b'"') && not (is_space c))
unfolding is_mark
is_mark_eq c = refl

-- Every unit begins a word, a string, a number, a run of blanks or a run of marks.
classes :
    (c : ℕ)
    → starts_word c ≡ false
    → (c == b'"') ≡ false
    → is_digit c ≡ false
    → is_space c ≡ false
    → is_mark c ≡ true
classes c h1 h2 h3 h4 = rw (is_mark_eq c, h1, h3, h2, h4)

scan_round-Covers : (w : Bool) (c : ℕ) (s : Str) → CoversBy c s (scan_round w c s)
unfolding scan_round
scan_round-Covers w c s =
    if-Covers (starts_word c) c s _ _ (λ _. run_covers (λ d. not (in_word d)) c s)
      (λ n1. if-Covers (c == b'"') c s _ _ (string_round-Covers c s) (λ n2.
        if-Covers (is_digit c) c s _ _ (number_round-Covers w c s) (λ n3.
          if-Covers (is_space c) c s _ _ (λ _. run_covers (λ d. not (is_space d)) c s)
            (λ n4.
              if-Covers (is_mark c) c s _ _ (λ _. run_covers (λ d. not (is_mark d)) c s)
                (λ n5. cc (classes c n1 n2 n3 n4))))))

-- The units of a text that are never lost.
abbrev pub kept : Str → Str
kept s = filter is_kept s

Covers-kept :
    (c : ℕ) (s : Str) (o : Option Token) (rest : Str) (ts : List Token)
    → Covers c s o rest
    → kept (shown ts) ≡ kept rest
    → kept (shown (push o ts)) ≡ kept (c ∷ s)
Covers-kept c s (some t) rest ts h e =
    filter-append is_kept t.text (shown ts)
    ∙ ap (λ u. kept t.text ++ u) e
    ∙ sym (filter-append is_kept t.text rest)
    ∙ ap kept (sym h)
Covers-kept c s none rest ts (er, lost) e = rw lost (e ∙ ap kept er)

scan_from-kept :
    (f : ℕ) (w : Bool) (s : Str) → length s ≤ f → kept (shown (scan_from f w s)) ≡ kept s
unfolding scan_from
scan_from-kept zero w [] h = refl
scan_from-kept zero w (c ∷ s) h = absurd (omega arith)
scan_from-kept (suc f) w [] h = refl
scan_from-kept (suc f) w (c ∷ s) h =
    let r = scan_round w c s in
    let shorter = length-scan_round w c s in
    Covers-kept c s r.pushed r.rest (scan_from f r.behind_word r.rest) (scan_round-Covers w c s)
      (scan_from-kept f r.behind_word r.rest (omega arith))

split_comment-append : (s : Str) → (split_comment s).0 ++ (split_comment s).1 ≡ s
unfolding split_comment
split_comment-append [] = refl
split_comment-append (c ∷ []) = refl
split_comment-append (c ∷ d ∷ s) = ground (arith, split_comment-append (d ∷ s))

shown-comment_token : (s : Str) → shown (comment_token s) ≡ s
shown-comment_token [] = refl
shown-comment_token (c ∷ s) = append-nil (c ∷ s)

-- Of the units that are no digits and no double quotes, the tokens of a line show each one once and in
-- the order of the line, and no other.
pub highlight_rust-kept : (line : Str) → kept (shown (highlight_rust line)) ≡ kept line
unfolding highlight_rust
highlight_rust-kept line =
    let (before, after) = split_comment line in
    ap kept (shown-append (scan before) (comment_token after))
    ∙ filter-append is_kept (shown (scan before)) (shown (comment_token after))
    ∙ rw (scan_from-kept (length before) false before (omega arith), shown-comment_token after)
        (sym (filter-append is_kept before after) ∙ ap kept (split_comment-append line))
