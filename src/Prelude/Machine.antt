-- ===== src/Prelude/Machine.antt =====
-- Sessions: a component as a step on its state, with what the step sends, and what holds of every
-- sequence of its events.
use Prim.Native.Nat.{ℕ, ◌+◌, ◌≤◌}
use mathlib.Core.Path.{◌≡◌}
use mathlib.Core.List.{List, [], ◌∷◌, ◌++◌}
use native.Mathlib.Omega.{arith}
use orchis_foundry.Prelude.Lists.{All, All-append}

-- The sum of `f` over a list.
abbrev pub total {ℓ} : {A : Type ℓ} → (A → ℕ) → List A → ℕ
total f [] = 0
total f (x ∷ xs) = f x + total f xs

pub total-append {ℓ} :
    {A : Type ℓ} (f : A → ℕ) (xs ys : List A) → total f (xs ++ ys) ≡ total f xs + total f ys
total-append f [] ys = omega arith
total-append f (x ∷ xs) ys = omega (arith, total-append f xs ys)

module _ {S E R : Type 0} (step : S → E → S × List R) where
  -- The events one after the other, and all that is sent.
  unfoldable pub session : S → List E → S × List R
  session s [] = (s, [])
  session s (e ∷ es) = let r = step s e in let rest = session r.0 es in (rest.0, r.1 ++ rest.1)

  -- An invariant of the states under which all that is sent satisfies `P`.
  pub session-All {ℓ κ} :
      (I : S → Type ℓ) (P : R → Type κ)
      → ((s : S) (e : E) → I s → I (step s e).0 × All P (step s e).1)
      → (es : List E) (s : S) → I s
      → I (session s es).0 × All P (session s es).1
  unfolding session
  session-All I P one [] s h = (h, tt)
  session-All I P one (e ∷ es) s h =
      let (k, now) = one s e h in
      let (later, rest) = session-All I P one es (step s e).0 k in
      (later, All-append P (step s e).1 (session (step s e).0 es).1 now rest)

  -- What is sent and not yet answered is counted by `waits`.
  pub session-waits :
      (sent : R → ℕ) (answered : E → ℕ) (waits : S → ℕ)
      → ((s : S) (e : E) → total sent (step s e).1 + waits s ≤ answered e + waits (step s e).0)
      → (es : List E) (s : S)
      → total sent (session s es).1 + waits s ≤ total answered es + waits (session s es).0
  unfolding session
  session-waits sent answered waits one [] s = omega arith
  session-waits sent answered waits one (e ∷ es) s = omega (
    arith,
    one s e,
    session-waits sent answered waits one es (step s e).0,
    total-append sent (step s e).1 (session (step s e).0 es).1,
  )
