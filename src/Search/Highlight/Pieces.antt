-- ===== src/Search/Highlight/Pieces.antt =====
-- What the pieces of a highlighted line are.
use orchis_foundry.Prelude.{
  ℕ, zero, suc, ◌+◌, ◌≤◌, true, false, none, some, List, [], ◌∷◌, ◌++◌, append_assoc, append-nil,
  ltb, ◌≡◌, ◌∙◌, refl, sym, ap, inl, inr, arith, Bool-cases, Option-cases, Str, eqs, take, drop,
  length,
}
use orchis_foundry.Search.Highlight.{Piece, plain, mark, index_of, front, pieces_from, highlight}

abbrev text_of : Piece → Str
text_of (plain s) = s
text_of (mark s) = s

abbrev pub shown : List Piece → Str
shown [] = []
shown (p ∷ ps) = text_of p ++ shown ps

shown-append : (ps qs : List Piece) → shown (ps ++ qs) ≡ shown ps ++ shown qs
shown-append [] qs = refl
shown-append (p ∷ ps) qs =
    ap (λ s. text_of p ++ s) (shown-append ps qs)
    ∙ sym (append_assoc (text_of p) (shown ps) (shown qs))

module _ {ℓ} {A : Type ℓ} where
  take-append-drop : (k : ℕ) (t : List A) → take k t ++ drop k t ≡ t
  take-append-drop zero t = refl
  take-append-drop (suc k) [] = refl
  take-append-drop (suc k) (c ∷ t) = ap (c ∷◌) (take-append-drop k t)

  drop_nil : (n : ℕ) → ◌≡◌ {A = List A} (drop n []) []
  drop_nil zero = refl
  drop_nil (suc n) = refl

  drop_add : (k n : ℕ) (t : List A) → drop n (drop k t) ≡ drop (k + n) t
  drop_add zero n t = ap (λ m. drop m t) (omega arith)
  drop_add (suc k) n [] = drop_nil n ∙ sym (drop_nil (suc k + n))
  drop_add (suc k) n (c ∷ t) =
      let e : suc (k + n) ≡ suc k + n = omega arith in drop_add k n t ∙ ap (λ m. drop m (c ∷ t)) e

  length-drop_le : (k : ℕ) (t : List A) → length (drop k t) ≤ length t
  length-drop_le zero t = omega arith
  length-drop_le (suc k) [] = omega arith
  length-drop_le (suc k) (c ∷ t) = omega (arith, length-drop_le k t)

  length-drop_lt : (k : ℕ) (c : A) (t : List A) → 1 ≤ k → length (drop k (c ∷ t)) ≤ length t
  length-drop_lt zero c t h = absurd (omega (arith, h))
  length-drop_lt (suc k) c t h = length-drop_le k t

shown-front : (k : ℕ) (t : Str) → shown (front k t) ≡ take k t
shown-front zero t = refl
shown-front (suc k) t = let e : ltb 0 (suc k) ≡ true = ground arith in rw e (append-nil _)

module _ (ql : Str) (n : ℕ) where
  pub pieces_none :
      (f c : ℕ) (t l : Str)
      → index_of ql l ≡ none
      → pieces_from ql n (suc f) (c ∷ t) l ≡ plain (c ∷ t) ∷ []
  unfolding pieces_from
  pieces_none f c t l e = rw (pieces_from, e) refl

  pub pieces_some :
      (f c k : ℕ) (t l : Str)
      → index_of ql l ≡ some k
      → pieces_from ql n (suc f) (c ∷ t) l
        ≡ front k (c ∷ t)
          ++ mark (take n (drop k (c ∷ t)))
            ∷ pieces_from ql n f (drop (k + n) (c ∷ t)) (drop (k + n) l)
  unfolding pieces_from
  pieces_some f c k t l e = rw (pieces_from, e) refl

  pub pieces_zero : (t l : Str) → pieces_from ql n 0 t l ≡ []
  unfolding pieces_from
  pieces_zero t l = refl

  pub pieces_nil : (f : ℕ) (l : Str) → pieces_from ql n f [] l ≡ []
  unfolding pieces_from
  pieces_nil zero l = refl
  pieces_nil (suc f) l = refl

  shown-pieces_from :
      (f : ℕ) (t l : Str) → 1 ≤ n → length t ≤ f → shown (pieces_from ql n f t l) ≡ t
  shown-pieces_from f [] l o h = ap shown (pieces_nil f l)
  shown-pieces_from zero (c ∷ t) l o h = absurd (omega (arith, h))
  shown-pieces_from (suc f) (c ∷ t) l o h = elim (Option-cases (index_of ql l)) [
    | inl e ↦ rw (pieces_none f c t l e) (append-nil _)
    | inr (k, e) ↦
        rw
          (
            pieces_some f c k t l e,
            shown-append (front k (c ∷ t)),
            shown-front k (c ∷ t),
            shown-pieces_from f (drop (k + n) (c ∷ t)) (drop (k + n) l) o
                (omega (arith, o, h, length-drop_lt (k + n) c t)),
          )
          (ap (λ r. take k (c ∷ t) ++ (take n (drop k (c ∷ t)) ++ r)) (sym (drop_add k n (c ∷ t)))
            ∙ ap (λ r. take k (c ∷ t) ++ r) (take-append-drop n (drop k (c ∷ t)))
            ∙ take-append-drop k (c ∷ t))
  ]

length-pos : (q : Str) → eqs q [] ≡ false → 1 ≤ length q
unfolding eqs
length-pos [] h = cc
length-pos (c ∷ q) h = omega arith

-- The pieces of a highlighted line, marked or not, make up the line, whatever `toLowerCase` does.
pub highlight-shown : (lower : Str → Str) (text q : Str) → shown (highlight lower text q) ≡ text
unfolding highlight
highlight-shown lower text q = elim (Bool-cases (eqs q [])) [
  | inl e ↦ rw e (append-nil text)
  | inr e ↦ rw e (
      shown-pieces_from (lower q) (length q) (length text) text (lower text) (length-pos q e)
        (omega arith))
]
