-- ===== src/Palette/Keys.antt =====
-- The palette's state and handlers. `idx` may fall to -1: `Math.min(i + 1, filtered.length - 1)` over
-- an empty list. `gen` counts the runs of the effect on `[q, open]`, each of which cancels the request
-- of the run before; an answer names the run that asked.
pub mod Laws
pub mod Highlight
use orchis_foundry.Prelude.{
  ℕ, zero, suc, ◌+◌, Bool, true, false, not, ◌&&◌, Option, none, some, List, [], ◌∷◌, if◌then◌else◌,
  ◌==◌, Str, eqs, length, get_elem?,
}
use orchis_foundry.Prelude.Int.{ℤ, pos, negsuc, ◌+ℤ◌, ◌-ℤ◌, min_ℤ, max_ℤ}
use orchis_foundry.App.Route.{Route}
use orchis_foundry.Palette.Actions.{Action, Hits, no_hits, filtered}

pub record Palette : Type 0 where
  pub is_open : Bool
  pub query : Str
  pub idx : ℤ
  pub hits : Hits
  pub gen : ℕ

abbrev pub closed : Palette
closed = record { is_open = false; query = []; idx = pos 0; hits = no_hits; gen = 0 }

-- `xs[i]`, which is `undefined` below 0 and past the end.
abbrev pub at_index {ℓ} : {A : Type ℓ} → List A → ℤ → Option A
at_index xs (pos n) = get_elem? xs n
at_index xs (negsuc n) = none

-- `xs.findIndex(x => x.id === id)`.
pub find_index : List Action → Str → ℤ
unfolding eqs ◌+ℤ◌
find_index [] id = negsuc 0
find_index (a ∷ rest) id = elim (eqs a.id id) [
  | true ↦ pos 0
  | false ↦ elim (find_index rest id) [ pos n ↦ pos (suc n) | negsuc n ↦ negsuc n ]
]

-- What happens to the palette. The app sets `open`; an answer that is `none` is a failed request.
pub data Event : Type 0 where
  show : Event
  type_query : Str → Event
  escape arrow_down arrow_up enter : Event
  hover : Str → Event
  click : Action → Event
  click_outside : Event
  answer : ℕ → Option Hits → Event

-- `onClose`: the app sets `open` to `false`, and the effect on `[q, open]` runs.
abbrev pub close : Palette → Palette
close p = record p { is_open = false; gen = p.gen + 1 }

-- `a.run(); onClose();`: the new state, and the route that is navigated to.
abbrev pub run_action : Palette → Option Action → Palette × Option Route
run_action p none = (p, none)
run_action p (some a) = (close p, some a.target)

abbrev pub hits_or_none : Option Hits → Hits
hits_or_none none = no_hits
hits_or_none (some h) = h

-- `show` resets the query and the index; its effect on `[q, open]` is a new run.
pub step_closed : Palette → Event → Palette × Option Route
step_closed p show = (record p { is_open = true; query = []; idx = pos 0; gen = p.gen + 1 }, none)
step_closed p _ = (p, none)

module _ (lower : Str → Str) where
  abbrev pub listed : Palette → List Action
  listed p = filtered lower p.query p.hits

  -- The handlers are registered, and the rows are there, only while the palette is open.
  pub step_open : Palette → Event → Palette × Option Route
  unfolding find_index ◌+ℤ◌ ◌-ℤ◌ min_ℤ max_ℤ eqs
  step_open p show = (p, none)
  step_open p (type_query q) =
      (record p { query = q; idx = pos 0; gen = if eqs q p.query then p.gen else p.gen + 1 }, none)
  step_open p escape = (close p, none)
  step_open p arrow_down =
      (record p { idx = min_ℤ (p.idx +ℤ pos 1) (pos (length (listed p)) -ℤ pos 1) }, none)
  step_open p arrow_up = (record p { idx = max_ℤ (p.idx -ℤ pos 1) (pos 0) }, none)
  step_open p enter = run_action p (at_index (listed p) p.idx)
  step_open p (hover id) = (record p { idx = find_index (listed p) id }, none)
  step_open p (click a) = run_action p (some a)
  step_open p click_outside = (close p, none)
  step_open p (answer g h) = (if g == p.gen then record p { hits = hits_or_none h } else p, none)

  unfoldable pub step : Palette → Event → Palette × Option Route
  unfolding step_open step_closed
  step p e = if p.is_open then step_open p e else step_closed p e

  -- A session: the last state, and the routes in order.
  unfoldable pub run : Palette → List Event → Palette × List Route
  unfolding step
  run p [] = (p, [])
  run p (e ∷ es) =
      let r = step p e in
      let rest = run r.0 es in (rest.0, elim r.1 [ none ↦ rest.1 | some t ↦ t ∷ rest.1 ])
