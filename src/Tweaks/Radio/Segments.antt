-- ===== src/Tweaks/Radio/Segments.antt =====
-- Which option is under the pointer.
use native.Mathlib.Nat.{div-eq_of_lt-le}
use orchis_foundry.Prelude.{
  ℕ, zero, suc, ◌+◌, ◌*◌, ◌/◌, ◌≤◌, ◌<◌, some, List, [], ◌∷◌, length, get_elem?, ◌≡◌, ◌≢◌, refl,
  arith,
}
use orchis_foundry.Prelude.Int.{ℤ, pos, negsuc}
use orchis_foundry.Tweaks.Radio.{TweakOption, seg_index, seg_at}

seg_index-bound : (n inner : ℕ) (x : ℤ) → 1 ≤ n → seg_index n inner x < n
seg_index-bound n inner (negsuc k) h = omega (arith, h)
seg_index-bound n inner (pos x) h = omega (arith, h)

get_elem?-some :
    (os : List TweakOption) (i : ℕ) → i < length os → (o : TweakOption) × (get_elem? os i ≡ some o)
get_elem?-some [] i h = absurd (let n : ⊥ = omega (arith, h) in n)
get_elem?-some (o ∷ os) zero h = (o, refl)
get_elem?-some (o ∷ os) (suc i) h = get_elem?-some os i (omega (arith, h))

-- Wherever the pointer is, left of the options or right of them, there is an option under it.
seg_at-some :
    (os : List TweakOption) (inner : ℕ) (x : ℤ)
    → os ≢ []
    → (o : TweakOption) × (seg_at os inner x ≡ some o)
seg_at-some [] inner x h = absurd (h refl)
seg_at-some (o ∷ os) inner x h =
    get_elem?-some (o ∷ os) _ (seg_index-bound (length (o ∷ os)) inner x (omega arith))

-- The pointer over the thumb of an option picks that option: between its two ends, which are the parts
-- `i` and `i + 1` of the track.
seg_index-thumb :
    (n inner i x : ℕ)
    → i < n
    → i * inner ≤ x * n
    → x * n < (i + 1) * inner
    → seg_index n inner (pos x) ≡ i
seg_index-thumb n inner i x h low high =
    let q : x * n / inner ≡ i = div-eq_of_lt-le {k = i} inner {m = x * n} low high in
    omega (arith, h, q)
