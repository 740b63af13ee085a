-- ===== src/Tweaks/Colours/Luminance.antt =====
-- What `__twkIsLight` computes of a colour in its two forms.
use orchis_foundry.Prelude.{
  ℕ, ◌+◌, ◌*◌, ◌/◌, ◌%◌, ◌<◌, false, ◌||◌, some, [], ◌∷◌, take, ltb, ◌==◌, ◌≡◌, refl, ap, ◌∙◌,
  arith, Str, trim_start, is_space, Bool-cases, inl, inr,
}
use orchis_foundry.Tweaks.Colours.{
  hex_digit, drop_hash, is_line_end, doubled, padded, long_form, read_hex, hex_number, drop_prefix,
  signed, parse_hex, luminance, is_pale, is_light,
}

-- A digit in its ranges.
record IsDigit (c d : ℕ) : Type 0 where
  small : d < 16
  ink : is_space c ≡ false
  line : is_line_end c ≡ false
  minus : (c == 45) ≡ false
  plus : (c == 43) ≡ false
  hash : (c == 35) ≡ false
  cross : (c == 120 || c == 88) ≡ false

hex_digit-IsDigit : (c d : ℕ) → hex_digit c ≡ some d → IsDigit c d
unfolding hex_digit is_space is_line_end
hex_digit-IsDigit c d h = record {
  small = ground (arith, h);
  ink = ground (arith, h);
  line = ground (arith, h);
  minus = ground (arith, h);
  plus = ground (arith, h);
  hash = ground (arith, h);
  cross = ground (arith, h);
}

hex_number-cons :
    (c d : ℕ) (s : Str) → hex_digit c ≡ some d → hex_number (c ∷ s) ≡ some (read_hex d s)
unfolding hex_number
hex_number-cons c d s h = rw (hex_number, h) refl

read_hex-cons :
    (n c d : ℕ) (s : Str) → hex_digit c ≡ some d → read_hex n (c ∷ s) ≡ read_hex (n * 16 + d) s
unfolding read_hex
read_hex-cons n c d s h = rw (read_hex, h) refl

drop_prefix-keeps :
    (a b : ℕ) (s : Str) → (b == 120 || b == 88) ≡ false → drop_prefix (a ∷ b ∷ s) ≡ a ∷ b ∷ s
unfolding drop_prefix
drop_prefix-keeps a b s h =
    rw h (elim (Bool-cases (a == 48)) [ inl t ↦ rw t refl | inr f ↦ rw f refl ])

doubled-cons : (c : ℕ) (s : Str) → is_line_end c ≡ false → doubled (c ∷ s) ≡ c ∷ c ∷ doubled s
unfolding doubled
doubled-cons c s h = rw h refl

doubled-three :
    (p q r a b c : ℕ)
    → hex_digit p ≡ some a
    → hex_digit q ≡ some b
    → hex_digit r ≡ some c
    → doubled (p ∷ q ∷ r ∷ []) ≡ p ∷ p ∷ q ∷ q ∷ r ∷ r ∷ []
unfolding doubled
doubled-three p q r a b c hp hq hr =
    rw
      (
        doubled-cons p (q ∷ r ∷ []) (hex_digit-IsDigit p a hp).line,
        doubled-cons q (r ∷ []) (hex_digit-IsDigit q b hq).line,
        doubled-cons r [] (hex_digit-IsDigit r c hr).line,
      )
      refl

-- The number of six digits.
abbrev six : ℕ → ℕ → ℕ → ℕ → ℕ → ℕ → ℕ
six a b c d e f = ((((a * 16 + b) * 16 + c) * 16 + d) * 16 + e) * 16 + f

module _ (p q r s t u a b c d e f : ℕ) (hp : hex_digit p ≡ some a) (hq : hex_digit q ≡ some b)
    (hr : hex_digit r ≡ some c) (hs : hex_digit s ≡ some d) (ht : hex_digit t ≡ some e)
    (hu : hex_digit u ≡ some f) where
  six-hex_number : hex_number (p ∷ q ∷ r ∷ s ∷ t ∷ u ∷ []) ≡ some (six a b c d e f)
  unfolding hex_number read_hex
  six-hex_number =
      rw
        (
          hex_number-cons p a (q ∷ r ∷ s ∷ t ∷ u ∷ []) hp,
          read_hex-cons a q b (r ∷ s ∷ t ∷ u ∷ []) hq,
          read_hex-cons _ r c (s ∷ t ∷ u ∷ []) hr,
          read_hex-cons _ s d (t ∷ u ∷ []) hs,
          read_hex-cons _ t e (u ∷ []) ht,
          read_hex-cons _ u f [] hu,
        )
        refl

  six-parse_hex : parse_hex (p ∷ q ∷ r ∷ s ∷ t ∷ u ∷ []) ≡ some (six a b c d e f)
  unfolding parse_hex signed trim_start
  six-parse_hex =
      let i = hex_digit-IsDigit p a hp in
      rw
        (
          i.ink,
          i.minus,
          i.plus,
          drop_prefix-keeps p q (r ∷ s ∷ t ∷ u ∷ []) (hex_digit-IsDigit q b hq).cross,
          six-hex_number,
        )
        refl

  -- The three channels of a number of six digits.
  channels :
      (six a b c d e f / 65536 % 256 ≡ a * 16 + b)
      × (six a b c d e f / 256 % 256 ≡ c * 16 + d)
      × (six a b c d e f % 256 ≡ e * 16 + f)
  channels =
      let a_ = (hex_digit-IsDigit p a hp).small in
      let b_ = (hex_digit-IsDigit q b hq).small in
      let c_ = (hex_digit-IsDigit r c hr).small in
      let d_ = (hex_digit-IsDigit s d hs).small in
      let e_ = (hex_digit-IsDigit t e ht).small in
      let f_ = (hex_digit-IsDigit u f hu).small in
      (
        omega (arith, a_, b_, c_, d_, e_, f_),
        omega (arith, a_, b_, c_, d_, e_, f_),
        omega (arith, e_, f_),
      )

  six-is_light :
      is_light (35 ∷ p ∷ q ∷ r ∷ s ∷ t ∷ u ∷ [])
      ≡ ltb 148000 (luminance (a * 16 + b) (c * 16 + d) (e * 16 + f))
  unfolding is_light drop_hash long_form padded
  six-is_light = let (x, y, z) = channels in ap is_pale six-parse_hex ∙ rw (x, y, z) refl

-- A colour of six digits, or of three that count twice each, is light exactly where its luminance, of the
-- numbers of its three channels, is over the bound.
pub is_light_lem :
    (p q r s t u a b c d e f : ℕ)
    → hex_digit p ≡ some a
    → hex_digit q ≡ some b
    → hex_digit r ≡ some c
    → hex_digit s ≡ some d
    → hex_digit t ≡ some e
    → hex_digit u ≡ some f
    → (is_light (35 ∷ p ∷ q ∷ r ∷ s ∷ t ∷ u ∷ [])
        ≡ ltb 148000 (luminance (a * 16 + b) (c * 16 + d) (e * 16 + f)))
      × (is_light (35 ∷ p ∷ q ∷ r ∷ []) ≡ ltb 148000 (luminance (a * 17) (b * 17) (c * 17)))
unfolding is_light drop_hash long_form doubled
is_light_lem p q r s t u a b c d e f hp hq hr hs ht hu = (
  six-is_light p q r s t u a b c d e f hp hq hr hs ht hu,
  ap (λ h. is_pale (parse_hex (take 6 h))) (doubled-three p q r a b c hp hq hr)
      ∙ six-is_light p p q q r r a a b b c c hp hp hq hq hr hr
      ∙ ap (ltb 148000) (omega arith),
)
