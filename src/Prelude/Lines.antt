-- ===== src/Prelude/Lines.antt =====
-- `s.split("\n")` and `lines.join("\n")`.
use mathlib.Core.Path.{◌≡◌, refl, ap}
use mathlib.Core.Logic.{◌≢◌}
use mathlib.Core.List.{List, [], ◌∷◌, ◌++◌}
use native.Mathlib.Omega.{arith}
use Prim.Native.Nat.{ℕ}
use orchis_foundry.Prelude.Tests.{◌==◌, if◌then◌else◌}
use orchis_foundry.Prelude.Lists.{All}
use orchis_foundry.Prelude.Text.{Str, Lacks}

-- A unit in front of the first part.
abbrev onto_first : ℕ → List Str → List Str
onto_first c [] = (c ∷ []) ∷ []
onto_first c (p ∷ ps) = (c ∷ p) ∷ ps

unfoldable pub split : ℕ → Str → List Str
split x [] = [] ∷ []
split x (c ∷ s) = if c == x then [] ∷ split x s else onto_first c (split x s)

unfoldable pub join : ℕ → List Str → Str
join x [] = []
join x (p ∷ []) = p
join x (p ∷ q ∷ ps) = p ++ x ∷ join x (q ∷ ps)

split-append : (x : ℕ) (p s : Str) → Lacks x p → split x (p ++ x ∷ s) ≡ p ∷ split x s
unfolding split
split-append x [] s h = ground arith
split-append x (c ∷ p) s (ne, h) = ground (arith, split-append x p s h)

split-Lacks : (x : ℕ) (p : Str) → Lacks x p → split x p ≡ p ∷ []
unfolding split
split-Lacks x [] h = refl
split-Lacks x (c ∷ p) (ne, h) = ground (arith, split-Lacks x p h)

split-join_cons :
    (x : ℕ) (p : Str) (ps : List Str) → All (Lacks x) (p ∷ ps) → split x (join x (p ∷ ps)) ≡ p ∷ ps
unfolding join
split-join_cons x p [] (h, _) = split-Lacks x p h
split-join_cons x p (q ∷ ps) (h, hs) =
    rw (split-append x p _ h) (ap (p ∷◌) (split-join_cons x q ps hs))

-- Parts that lack the separator are split again where they were joined.
pub split-join : (x : ℕ) (ps : List Str) → ps ≢ [] → All (Lacks x) ps → split x (join x ps) ≡ ps
split-join x [] ne h = absurd (ne refl)
split-join x (p ∷ ps) ne h = split-join_cons x p ps h
