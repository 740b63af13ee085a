-- ===== src/Search/Highlight/Marks.antt =====
-- What is marked in a highlighted line.
use orchis_foundry.Prelude.{
  ℕ, zero, suc, ◌+◌, true, false, none, some, List, [], ◌∷◌, map, if◌then◌else◌, ◌≡◌, ◌∙◌, refl,
  sym, ap, inl, inr, arith, Bool-cases, Option-cases, Str, eqs, starts_with, take, drop, length,
  All, All-append,
}
use orchis_foundry.Search.Highlight.{
  Piece, plain, mark, next, index_of, front, pieces_from, highlight,
}
use orchis_foundry.Search.Highlight.Pieces.{pieces_none, pieces_some, pieces_nil, pieces_zero}

-- `lower` unit by unit.
abbrev pub IsMatch : (ℕ → ℕ) → Str → Piece → Type 0
IsMatch lower q (plain s) = Unit
IsMatch lower q (mark s) = map lower s ≡ map lower q

starts_with-take : (q s : Str) → starts_with q s ≡ true → take (length q) s ≡ q
unfolding starts_with
starts_with-take [] s h = refl
starts_with-take (c ∷ q) [] h = cc
starts_with-take (c ∷ q) (d ∷ s) h = ground (arith, starts_with-take q s)

index_of_nil : (q : Str) → index_of q [] ≡ (if starts_with q [] then some 0 else none)
unfolding index_of
index_of_nil q = refl

index_of_here :
    (q : Str) (c : ℕ) (s : Str) → starts_with q (c ∷ s) ≡ true → index_of q (c ∷ s) ≡ some 0
unfolding index_of
index_of_here q c s e = rw (index_of, e) refl

index_of_later :
    (q : Str) (c : ℕ) (s : Str)
    → starts_with q (c ∷ s) ≡ false
    → index_of q (c ∷ s) ≡ next (index_of q s)
unfolding index_of
index_of_later q c s e = rw (index_of, e) refl

index_of_sound : (q s : Str) (k : ℕ) → index_of q s ≡ some k → starts_with q (drop k s) ≡ true
index_of_sound q [] k h = elim (Bool-cases (starts_with q [])) [
  | inl t ↦ let z : 0 ≡ k = cc (rw (index_of_nil q, t) at h) in rw⁻¹ z t
  | inr f ↦ cc (rw (index_of_nil q, f) at h)
]
index_of_sound q (c ∷ s) k h = elim (Bool-cases (starts_with q (c ∷ s))) [
  | inl t ↦ let z : 0 ≡ k = cc (sym (index_of_here q c s t) ∙ h) in rw⁻¹ z t
  | inr f ↦ elim (Option-cases (index_of q s)) [
    | inl e ↦ cc (sym (index_of_later q c s f) ∙ h, ap next e)
    | inr (j, e) ↦
        let z : suc j ≡ k = cc (sym (index_of_later q c s f) ∙ h, ap next e) in
        rw⁻¹ z (index_of_sound q s j e)
  ]
]

module _ {ℓ κ} {A : Type ℓ} {B : Type κ} (f : A → B) where
  map-take : (k : ℕ) (t : List A) → map f (take k t) ≡ take k (map f t)
  map-take zero t = refl
  map-take (suc k) [] = refl
  map-take (suc k) (c ∷ t) = ap (f c ∷◌) (map-take k t)

  map-drop : (k : ℕ) (t : List A) → map f (drop k t) ≡ drop k (map f t)
  map-drop zero t = refl
  map-drop (suc k) [] = refl
  map-drop (suc k) (c ∷ t) = map-drop k t

  length-map : (t : List A) → length (map f t) ≡ length t
  length-map [] = refl
  length-map (c ∷ t) = ap suc (length-map t)

IsMatch-front : (lower : ℕ → ℕ) (q : Str) (k : ℕ) (t : Str) → All (IsMatch lower q) (front k t)
IsMatch-front lower q k t = ground arith

module _ (lower : ℕ → ℕ) (q : Str) where
  matched :
      (k : ℕ) (t : Str)
      → index_of (map lower q) (map lower t) ≡ some k
      → map lower (take (length q) (drop k t)) ≡ map lower q
  matched k t h =
      map-take lower (length q) (drop k t)
      ∙ ap (take (length q)) (map-drop lower k t)
      ∙ ap (λ n. take n (drop k (map lower t))) (sym (length-map lower q))
      ∙ starts_with-take (map lower q) (drop k (map lower t))
          (index_of_sound (map lower q) (map lower t) k h)

  IsMatch-pieces_from :
      (f : ℕ) (t : Str)
      → All (IsMatch lower q) (pieces_from (map lower q) (length q) f t (map lower t))
  IsMatch-pieces_from f [] = rw (pieces_nil (map lower q) (length q) f []) tt
  IsMatch-pieces_from zero (c ∷ t) =
      rw (pieces_zero (map lower q) (length q) (c ∷ t) (map lower (c ∷ t))) tt
  IsMatch-pieces_from (suc f) (c ∷ t) =
      elim (Option-cases (index_of (map lower q) (map lower (c ∷ t)))) [
        | inl e ↦ rw (pieces_none (map lower q) (length q) f c t _ e) (tt, tt)
        | inr (k, e) ↦ rw (pieces_some (map lower q) (length q) f c k t _ e) (
            All-append (IsMatch lower q) (front k (c ∷ t)) _ (IsMatch-front lower q k (c ∷ t)) (
              matched k (c ∷ t) e,
              rw (map-drop lower (k + length q) (c ∷ t)) at
                  (IsMatch-pieces_from f (drop (k + length q) (c ∷ t))),
            ))
      ]

-- Where `toLowerCase` goes unit by unit, every marked piece is the query, but for its case.
pub highlight-IsMatch :
    (lower : ℕ → ℕ) (text q : Str) → All (IsMatch lower q) (highlight (map lower) text q)
unfolding highlight
highlight-IsMatch lower text q = elim (Bool-cases (eqs q [])) [
  | inl e ↦ rw e (tt, tt)
  | inr e ↦ rw e (IsMatch-pieces_from lower q (length text) text)
]
