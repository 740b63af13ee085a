-- ===== src/Palette/Keys/Laws.antt =====
-- What the keys do.
use orchis_foundry.Prelude.{
  ℕ, ◌+◌, ◌<◌, Bool, true, false, Option, none, some, List, [], ◌∷◌, ◌≡◌, ◌≢◌, ◌∙◌, ap, ==_iff, inl,
  inr, refl, arith, Str, length, ◌==◌, if◌then◌else◌, Bool-cases, ltb,
}
use orchis_foundry.Prelude.Int.{pos, negsuc, ◌≤ℤ◌}
use orchis_foundry.App.Route.{Route}
use orchis_foundry.Palette.Actions.{Action, Hits}
use orchis_foundry.Palette.Keys.{
  Palette, Event, show, type_query, arrow_down, arrow_up, enter, hover, click, answer, at_index,
  find_index, close, listed, step, step_open, step_closed, run, run_action, hits_or_none,
}

find_index_bound : (l : List Action) (id : Str) → negsuc 0 ≤ℤ find_index l id
unfolding find_index
find_index_bound [] id = omega arith
find_index_bound (a ∷ l) id = ground (arith, find_index_bound l id)

run_action-idx : (p : Palette) (o : Option Action) → (run_action p o).0.idx ≡ p.idx
run_action-idx p none = refl
run_action-idx p (some a) = refl

eqb_false : (a b : ℕ) → a ≢ b → (a == b) ≡ false
eqb_false a b h = ground arith

abbrev chosen : Palette → Option Hits → Bool → Palette × Option Route
chosen p o t = (if t then record p { hits = hits_or_none o } else p, none)

module _ (lower : Str → Str) where
  step_open-idx :
      (p : Palette) (e : Event) → negsuc 0 ≤ℤ p.idx → negsuc 0 ≤ℤ (step_open lower p e).0.idx
  unfolding step_open
  step_open-idx p enter h = rw (run_action-idx p (at_index (listed lower p) p.idx)) h
  step_open-idx p (hover id) h = find_index_bound (listed lower p) id
  step_open-idx p arrow_down h = ground arith
  step_open-idx p arrow_up h = ground arith
  step_open-idx p (answer g o) h = ground arith
  step_open-idx p (type_query q) h = omega arith
  step_open-idx p _ h = h

  step_closed-idx :
      (p : Palette) (e : Event) → negsuc 0 ≤ℤ p.idx → negsuc 0 ≤ℤ (step_closed p e).0.idx
  unfolding step_closed
  step_closed-idx p show h = omega arith
  step_closed-idx p _ h = h

  step_eq_open : (p : Palette) (e : Event) → p.is_open ≡ true → step lower p e ≡ step_open lower p e
  unfolding step
  step_eq_open p e o = simp o

  step_eq_closed : (p : Palette) (e : Event) → p.is_open ≡ false → step lower p e ≡ step_closed p e
  unfolding step
  step_eq_closed p e o = simp o

  step-idx : (p : Palette) (e : Event) → negsuc 0 ≤ℤ p.idx → negsuc 0 ≤ℤ (step lower p e).0.idx
  step-idx p e h = elim (Bool-cases p.is_open) [
    | inl o ↦ rw (step_eq_open p e o) (step_open-idx p e h)
    | inr c ↦ rw (step_eq_closed p e c) (step_closed-idx p e h)
  ]

  -- Whatever happens, the index never falls below -1.
  run-idx : (es : List Event) (p : Palette) → negsuc 0 ≤ℤ p.idx → negsuc 0 ≤ℤ (run lower p es).0.idx
  unfolding run
  run-idx [] p h = h
  run-idx (e ∷ es) p h = run-idx es (step lower p e).0 (step-idx p e h)

  -- Arrow down goes to the next row, and stops at the last one.
  arrow_down_lem :
      (p : Palette) (n : ℕ)
      → p.is_open ≡ true
      → p.idx ≡ pos n
      → n < length (listed lower p)
      → (step lower p arrow_down).0.idx
        ≡ pos (if ltb (n + 1) (length (listed lower p)) then n + 1 else n)
  arrow_down_lem p n o e h =
      rw (step_eq_open p arrow_down o) (unfold step_open in rw e (ground arith))

  -- Enter at a row that is there opens its route and closes the palette; where no row is, it changes
  -- nothing.
  enter_lem :
      (p : Palette)
      → p.is_open ≡ true
      → ((a : Action)
          → at_index (listed lower p) p.idx ≡ some a
          → step lower p enter ≡ (close p, some a.target))
        × (at_index (listed lower p) p.idx ≡ none → step lower p enter ≡ (p, none))
  enter_lem p o = (
    λ a e. step_eq_open p enter o ∙ unfold step_open in ap (run_action p) e,
    λ e. step_eq_open p enter o ∙ unfold step_open in ap (run_action p) e,
  )

  run_action-navigates :
      (p : Palette) (o : Option Action) (r : Route)
      → (run_action p o).1 ≡ some r
      → (run_action p o).0.is_open ≡ false
  run_action-navigates p none r h = cc
  run_action-navigates p (some a) r h = refl

  step_open-navigates :
      (p : Palette) (e : Event) (r : Route)
      → (step_open lower p e).1 ≡ some r
      → (step_open lower p e).0.is_open ≡ false
  unfolding step_open
  step_open-navigates p enter r h = run_action-navigates p (at_index (listed lower p) p.idx) r h
  step_open-navigates p (click a) r h = refl
  step_open-navigates p _ r h = cc

  step_closed-none : (p : Palette) (e : Event) → (step_closed p e).1 ≡ none
  unfolding step_closed
  step_closed-none p show = refl
  step_closed-none p _ = refl

  -- Only an open palette navigates, and a navigation closes it.
  step-navigates :
      (p : Palette) (e : Event) (r : Route)
      → (step lower p e).1 ≡ some r
      → (p.is_open ≡ true) × ((step lower p e).0.is_open ≡ false)
  step-navigates p e r h = elim (Bool-cases p.is_open) [
    | inl o ↦
        (o, rw (step_eq_open p e o) (step_open-navigates p e r (rw (step_eq_open p e o) at h)))
    | inr c ↦ cc (step_closed-none p e, step_eq_closed p e c)
  ]

  -- The answer to a request that was cancelled, since the query or the palette has changed, is
  -- dropped; that of the last request sets the hits, and a failed one empties them.
  answer_lem :
      (p : Palette) (g : ℕ) (o : Option Hits)
      → p.is_open ≡ true
      → (g ≢ p.gen → step lower p (answer g o) ≡ (p, none))
        × (g ≡ p.gen → step lower p (answer g o) ≡ (record p { hits = hits_or_none o }, none))
  answer_lem p g o op = (
    λ ne.
        step_eq_open p (answer g o) op ∙ unfold step_open in ap (chosen p o) (eqb_false g p.gen ne),
    λ e.
        step_eq_open p (answer g o) op ∙ unfold step_open in ap (chosen p o) ((==_iff g p.gen).1 e),
  )
