-- ===== src/Review/Diff/Placed.antt =====
-- Where a comment is shown.
use orchis_foundry.Prelude.{
  Bool, true, false, ◌&&◌, Option, none, some, List, [], ◌∷◌, ◌++◌, ◌≡◌, ◌≢◌, ◌⊎◌, inl, inr, refl,
  sym, ap, ◌∙◌, arith, Str, eqs, eqs_iff, eqs_refl, filter, filter-append, Bool-cases, append-nil,
}
use orchis_foundry.Prelude.Int.{ℤ, pos, negsuc}
use orchis_foundry.Review.Diff.{Side, left, right, Anchor, Staged, eq_ℤ, eq_side, staged_here}

eq_ℤ_refl : (n : ℤ) → eq_ℤ n n ≡ true
eq_ℤ_refl (pos n) = ground arith
eq_ℤ_refl (negsuc n) = ground arith

eq_ℤ_sound : (m n : ℤ) → eq_ℤ m n ≡ true → m ≡ n
eq_ℤ_sound (pos m) (pos n) h = ap pos (ground arith)
eq_ℤ_sound (pos m) (negsuc n) h = cc
eq_ℤ_sound (negsuc m) (pos n) h = cc
eq_ℤ_sound (negsuc m) (negsuc n) h = ap negsuc (ground arith)

eq_side_refl : (d : Side) → eq_side d d ≡ true
eq_side_refl left = refl
eq_side_refl right = refl

eq_side_sound : (d e : Side) → eq_side d e ≡ true → d ≡ e
eq_side_sound left left h = refl
eq_side_sound right right h = refl
eq_side_sound left right h = cc
eq_side_sound right left h = cc

abbrev anchor_of : Staged → Anchor
anchor_of c = record { line = c.line; side = c.side }

-- The test that `stagedHere` makes.
abbrev is_here : Str → Anchor → Staged → Bool
is_here path a c = eqs c.path path && (eq_ℤ c.line a.line && eq_side c.side a.side)

is_here_own : (c : Staged) → is_here c.path (anchor_of c) c ≡ true
is_here_own c = rw (eqs_refl c.path, eq_ℤ_refl c.line, eq_side_refl c.side) refl

and_true : (a b : Bool) → (a && b) ≡ true → (a ≡ true) × (b ≡ true)
and_true true b h = (refl, h)
and_true false b h = cc

is_here_sound :
    (path : Str) (a : Anchor) (c : Staged)
    → is_here path a c ≡ true
    → (c.path ≡ path) × (a ≡ anchor_of c)
is_here_sound path a c h =
    let (p, r) = and_true (eqs c.path path) _ h in
    let (l, s) = and_true (eq_ℤ c.line a.line) (eq_side c.side a.side) r in
    ((eqs_iff c.path path).0 p, cc (eq_ℤ_sound c.line a.line l, eq_side_sound c.side a.side s))

filter-one {ℓ} : {A : Type ℓ} (p : A → Bool) (x : A) → p x ≡ true → filter p (x ∷ []) ≡ x ∷ []
filter-one p x h = rw h refl

filter-none {ℓ} : {A : Type ℓ} (p : A → Bool) (x : A) → p x ≡ false → filter p (x ∷ []) ≡ []
filter-none p x h = rw h refl

-- A comment that is staged is shown, behind those staged before, at each line of its file with its
-- anchor, and at no other line of any file.
staged_here-append :
    (path : Str) (b : Option Anchor) (pending : List Staged) (c : Staged)
    → (c.path ≡ path
        → b ≡ some (anchor_of c)
        → staged_here path b (pending ++ c ∷ []) ≡ staged_here path b pending ++ c ∷ [])
      × ((c.path ≢ path) ⊎ (b ≢ some (anchor_of c))
          → staged_here path b (pending ++ c ∷ []) ≡ staged_here path b pending)
unfolding staged_here
staged_here-append path none pending c = (λ p e. cc, λ _. refl)
staged_here-append path (some a) pending c = (
  λ p e.
      filter-append (is_here path a) pending (c ∷ [])
      ∙ ap (λ l. filter (is_here path a) pending ++ l) (filter-one (is_here path a) c (own p e)),
  λ o.
      filter-append (is_here path a) pending (c ∷ [])
      ∙ ap (λ l. filter (is_here path a) pending ++ l) (filter-none (is_here path a) c (other o))
      ∙ append-nil _,
)
  where
    own : c.path ≡ path → some a ≡ some (anchor_of c) → is_here path a c ≡ true
    own p e = let ea : a ≡ anchor_of c = cc e in rw (ea, sym p) (is_here_own c)

    other : (c.path ≢ path) ⊎ (some a ≢ some (anchor_of c)) → is_here path a c ≡ false
    other o = elim (Bool-cases (is_here path a c)) [
      | inl t ↦
          let (p, e) = is_here_sound path a c t in
          elim o [ inl np ↦ absurd (np p) | inr ne ↦ absurd (ne (ap some e)) ]
      | inr f ↦ f
    ]
