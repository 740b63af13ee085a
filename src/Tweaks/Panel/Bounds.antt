-- ===== src/Tweaks/Panel/Bounds.antt =====
-- Where the panel may stand.
use orchis_foundry.Prelude.{
  ℕ, true, Option, none, some, List, [], ◌∷◌, ◌≡◌, arith, inl, inr, Bool-cases,
}
use orchis_foundry.Prelude.Int.{ℤ, ◌≤ℤ◌, min_ℤ, max_ℤ}
use orchis_foundry.Tweaks.Panel.{
  pad, Offset, Size, max_edge, clamped, clamp_to_viewport, Drag, Panel, Event, activate, deactivate,
  dismiss, resize, drag_start, drag_move, drag_end, moved, step, run,
}

-- At least the padding from either edge, and on the page where the window has room for the panel.
abbrev IsInside : Size → Size → Offset → Type 0
IsInside window size o =
    (pad ≤ℤ o.x)
    × (o.x ≤ℤ max_edge window.width size.width)
    × (pad ≤ℤ o.y)
    × (o.y ≤ℤ max_edge window.height size.height)

pad-max_edge : (inner size : ℕ) → pad ≤ℤ max_edge inner size
unfolding max_edge max_ℤ
pad-max_edge inner size = ground arith

clamped_bounds : (edge x : ℤ) → pad ≤ℤ edge → (pad ≤ℤ clamped edge x) × (clamped edge x ≤ℤ edge)
unfolding clamped min_ℤ max_ℤ
clamped_bounds edge x h = (ground arith, ground arith)

clamp_to_viewport-IsInside :
    (window size : Size) (o : Offset) → IsInside window size (clamp_to_viewport window size o)
unfolding clamp_to_viewport
clamp_to_viewport-IsInside window size o =
    let (l, r) =
      clamped_bounds (max_edge window.width size.width) o.x
        (pad-max_edge window.width size.width) in
    let (t, b) =
      clamped_bounds (max_edge window.height size.height) o.y
        (pad-max_edge window.height size.height) in
    (l, r, t, b)

-- A panel that is open is inside.
abbrev pub IsPlaced : Size → Size × Panel → Type 0
IsPlaced size s = s.1.is_open ≡ true → IsInside s.0 size s.1.offset

module _ (size : Size) where
  IsPlaced-moved :
      (w : Size) (p : Panel) (o : Option Drag) (x y : ℤ)
      → IsPlaced size (w, p)
      → IsPlaced size (w, moved size w p o x y)
  IsPlaced-moved w p none x y h = h
  IsPlaced-moved w p (some d) x y h = elim (Bool-cases p.is_open) [
    | inl t ↦ simp t (λ _. clamp_to_viewport-IsInside w size _)
    | inr f ↦ simp f (λ b. cc b)
  ]

  IsPlaced-step : (s : Size × Panel) (e : Event) → IsPlaced size s → IsPlaced size (step size s e).0
  unfolding step
  IsPlaced-step (w, p) activate h = elim (Bool-cases p.is_open) [
    | inl t ↦ simp t (λ _. h t)
    | inr f ↦ simp f (λ _. clamp_to_viewport-IsInside w size p.offset)
  ]
  IsPlaced-step (w, p) deactivate h = λ b. cc b
  IsPlaced-step (w, p) dismiss h = λ b. cc b
  IsPlaced-step (w, p) (resize v) h = elim (Bool-cases p.is_open) [
    | inl t ↦ simp t (λ _. clamp_to_viewport-IsInside v size p.offset)
    | inr f ↦ simp f (λ b. cc b)
  ]
  IsPlaced-step (w, p) (drag_start x y o) h = elim (Bool-cases p.is_open) [
    | inl t ↦ simp t (λ _. h t)
    | inr f ↦ simp f (λ b. cc b)
  ]
  IsPlaced-step (w, p) (drag_move x y) h = IsPlaced-moved w p p.drag x y h
  IsPlaced-step (w, p) drag_end h = h

  -- An open panel keeps the padding from the right and the bottom edge and, where the window has room
  -- for it, from the others, after any drags, resizes, closings and openings.
  pub run-IsPlaced :
      (es : List Event) (s : Size × Panel) → IsPlaced size s → IsPlaced size (run size s es)
  unfolding run
  run-IsPlaced [] s h = h
  run-IsPlaced (e ∷ es) s h = run-IsPlaced es (step size s e).0 (IsPlaced-step s e h)
