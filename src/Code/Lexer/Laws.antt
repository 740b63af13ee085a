-- ===== src/Code/Lexer/Laws.antt =====
-- The loop of `highlightRust` ends.
use orchis_foundry.Prelude.{
  ℕ, zero, suc, ◌≤◌, Bool, true, false, not, some, [], ◌∷◌, ◌++◌, ◌≡◌, refl, ap, arith, inl, inr,
  Str, length-until, length, length-append, is_space, Option-cases, ◌==◌,
}
use orchis_foundry.Code.Lexer.{
  close_string, string_round, number_round, scan_round, scan_from, push, in_word, is_digit, is_mark,
}

-- The text of a quoted string, its closing quote included, and what stands behind it.
pub close_string_eq :
    (escaped : Bool) (s : Str) {body rest : Str}
    → close_string escaped s ≡ some (body, rest)
    → s ≡ body ++ rest
unfolding close_string
close_string_eq escaped [] h = cc
close_string_eq true (c ∷ s) {body} {rest} h = elim (Option-cases (close_string false s)) [
  | inl e ↦ ground arith
  | inr ((b, r), e) ↦ ground (arith, close_string_eq false s {body = b} {rest = r} e)
]
close_string_eq false (c ∷ s) {body} {rest} h = elim (Option-cases (close_string (c == b'\\') s)) [
  | inl e ↦ ground arith
  | inr ((b, r), e) ↦ ground (arith, close_string_eq (c == b'\\') s {body = b} {rest = r} e)
]

length-string_round : (s : Str) → length (string_round s (close_string false s)).rest ≤ length s
unfolding string_round
length-string_round s = elim (Option-cases (close_string false s)) [
  | inl e ↦ rw e (omega arith)
  | inr ((b, r), e) ↦ rw e (omega (arith, ap length (close_string_eq false s e), length-append b r))
]

length-number_round : (w : Bool) (c : ℕ) (s : Str) → length (number_round w c s).rest ≤ length s
unfolding number_round
length-number_round w c s = ground (arith, length-until (λ d. not (is_digit d)) s)

-- Each round takes a unit.
pub length-scan_round : (w : Bool) (c : ℕ) (s : Str) → length (scan_round w c s).rest ≤ length s
unfolding scan_round
length-scan_round w c s = ground (
  arith,
  length-until (λ d. not (in_word d)) s,
  length-until (λ d. not (is_space d)) s,
  length-until (λ d. not (is_mark d)) s,
  length-string_round s,
  length-number_round w c s,
)

-- With more fuel than the text is long the tokens are the same.
scan_from-enough :
    (f g : ℕ) (w : Bool) (s : Str) → length s ≤ f → length s ≤ g → scan_from f w s ≡ scan_from g w s
unfolding scan_from
scan_from-enough zero zero w s hf hg = refl
scan_from-enough zero (suc g) w [] hf hg = refl
scan_from-enough zero (suc g) w (c ∷ s) hf hg = absurd (omega arith)
scan_from-enough (suc f) zero w [] hf hg = refl
scan_from-enough (suc f) zero w (c ∷ s) hf hg = absurd (omega arith)
scan_from-enough (suc f) (suc g) w [] hf hg = refl
scan_from-enough (suc f) (suc g) w (c ∷ s) hf hg =
    let shorter = length-scan_round w c s in
    ap (push (scan_round w c s).pushed) (
      scan_from-enough f g (scan_round w c s).behind_word (scan_round w c s).rest (omega arith)
        (omega arith))
