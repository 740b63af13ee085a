-- ===== src/Markdown/Replace.antt =====
-- `String.prototype.replace` with a global pattern: the leftmost match is replaced, and the scan
-- goes on behind it. A `Matcher` tries a match at the front of a text, and gives what replaces it
-- and the text behind it.
use orchis_foundry.Prelude.{
  ℕ, zero, suc, ◌≤◌, ◌<◌, Option, none, some, [], ◌∷◌, ◌++◌, ◌≡◌, refl, ap, arith, inl, inr, Str,
  length, Option-cases,
}

abbrev pub Matcher : Type 0
Matcher = Str → Option (Str × Str)

-- Each match takes at least one code unit.
abbrev pub Consumes : Matcher → Type 0
Consumes m = (s r rest : Str) → m s ≡ some (r, rest) → length rest < length s

-- The first argument is fuel.
unfoldable pub replace_from : ℕ → Matcher → Str → Str
replace_from zero m s = s
replace_from (suc f) m [] = []
replace_from (suc f) m (c ∷ s) = elim (m (c ∷ s)) [
  | some (r, rest) ↦ r ++ replace_from f m rest
  | none ↦ c ∷ replace_from f m s
]

-- The length of the text is fuel enough, since each round takes a code unit.
unfoldable pub replace_all : Matcher → Str → Str
unfolding replace_from
replace_all m s = replace_from (length s) m s

-- More fuel than the text is long changes nothing.
pub replace_from-enough :
    (m : Matcher)
    → Consumes m
    → (f g : ℕ) (s : Str) → length s ≤ f
    → length s ≤ g
    → replace_from f m s ≡ replace_from g m s
unfolding replace_from
replace_from-enough m eats zero zero s hf hg = refl
replace_from-enough m eats zero (suc g) [] hf hg = refl
replace_from-enough m eats zero (suc g) (c ∷ s) hf hg = absurd (omega arith)
replace_from-enough m eats (suc f) zero [] hf hg = refl
replace_from-enough m eats (suc f) zero (c ∷ s) hf hg = absurd (omega arith)
replace_from-enough m eats (suc f) (suc g) [] hf hg = refl
replace_from-enough m eats (suc f) (suc g) (c ∷ s) hf hg = elim (Option-cases (m (c ∷ s))) [
  | inl e ↦
      rw (e, replace_from)
        (ap (c ∷◌) (replace_from-enough m eats f g s (omega arith) (omega arith)))
  | inr ((r, rest), e) ↦
      let shorter = eats (c ∷ s) r rest e in
      rw (e, replace_from)
        (ap (r ++◌) (replace_from-enough m eats f g rest (omega arith) (omega arith)))
]

-- A relation between what is left to read and what the scan makes of it: `P` is what every text that
-- is left satisfies.
module _ {ℓ κ} (m : Matcher) (P : Str → Type ℓ) (R : Str → Str → Type κ) where
  pub record Steps : Type (ℓ ⊔ κ) where
    pub stop : (s : Str) → P s → R s s
    pub tail : (c : ℕ) (s : Str) → P (c ∷ s) → P s
    pub keep : (c : ℕ) (s t : Str) → P (c ∷ s) → R s t → R (c ∷ s) (c ∷ t)
    pub rest_of : (s r rest : Str) → P s → m s ≡ some (r, rest) → P rest
    pub match_of : (s r rest t : Str) → P s → m s ≡ some (r, rest) → R rest t → R s (r ++ t)

  pub replace_from-inv : Steps → (f : ℕ) (s : Str) → P s → R s (replace_from f m s)
  unfolding replace_from
  replace_from-inv st zero s h = st.stop s h
  replace_from-inv st (suc f) [] h = st.stop [] h
  replace_from-inv st (suc f) (c ∷ s) h = elim (Option-cases (m (c ∷ s))) [
    | inl e ↦ rw (e, replace_from) (st.keep c s _ h (replace_from-inv st f s (st.tail c s h)))
    | inr ((r, rest), e) ↦
        let later = st.rest_of (c ∷ s) r rest h e in
        rw (e, replace_from) (st.match_of (c ∷ s) r rest _ h e (replace_from-inv st f rest later))
  ]
