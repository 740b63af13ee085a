-- ===== src/Tweaks/Panel.antt =====
-- The place of `TweaksPanel` on the page, in whole pixels from the right and the bottom edge, and the bounds
-- of `TweakNumber`. `step` is one event at the panel, with the messages that it posts to the host.
pub mod Bounds
use orchis_foundry.Prelude.{
  ℕ, zero, suc, ◌+◌, ◌-◌, Bool, true, false, Option, none, some, List, [], ◌∷◌, ◌++◌, if◌then◌else◌,
  Str, codes,
}
use orchis_foundry.Prelude.Int.{ℤ, pos, negsuc, ◌+ℤ◌, ◌-ℤ◌, min_ℤ, max_ℤ, ltb_ℤ}

-- PAD.
abbrev pub pad : ℤ
pad = pos 16

pub record Offset : Type 0 where
  pub x : ℤ
  pub y : ℤ

-- The size of the window, or of the panel.
pub record Size : Type 0 where
  pub width : ℕ
  pub height : ℕ

-- `Math.max(PAD, inner - size - PAD)`.
pub max_edge : ℕ → ℕ → ℤ
unfolding ◌-ℤ◌ max_ℤ
max_edge inner size = max_ℤ pad (pos inner -ℤ pos size -ℤ pad)

-- `Math.min(edge, Math.max(PAD, x))`.
pub clamped : ℤ → ℤ → ℤ
unfolding min_ℤ max_ℤ
clamped edge x = min_ℤ edge (max_ℤ pad x)

-- `clampToViewport`.
pub clamp_to_viewport : Size → Size → Offset → Offset
unfolding clamped max_edge
clamp_to_viewport window panel o = record {
  x = clamped (max_edge window.width panel.width) o.x;
  y = clamped (max_edge window.height panel.height) o.y;
}

-- A drag: where the mouse went down, and the offset of the panel then.
pub record Drag : Type 0 where
  pub sx : ℤ
  pub sy : ℤ
  pub start : Offset

pub record Panel : Type 0 where
  pub is_open : Bool
  pub offset : Offset
  pub drag : Option Drag

abbrev pub new_panel : Panel
new_panel = record { is_open = false; offset = record { x = pos 16; y = pos 16 }; drag = none }

pub data Event : Type 0 where
  activate deactivate dismiss : Event
  resize : Size → Event
  drag_start : ℤ → ℤ → Offset → Event
  drag_move : ℤ → ℤ → Event
  drag_end : Event

abbrev dragged : Drag → ℤ → ℤ → Offset
dragged d cx cy = record { x = d.start.x -ℤ (cx -ℤ d.sx); y = d.start.y -ℤ (cy -ℤ d.sy) }

-- The size of the window, and the panel. The panel is clamped when it opens, when the window changes and
-- when it is dragged; one that is closed while it is dragged still moves, and is not clamped.
module _ (size : Size) where
  abbrev pub moved : Size → Panel → Option Drag → ℤ → ℤ → Panel
  moved window p none cx cy = p
  moved window p (some d) cx cy =
      if p.is_open
      then record p { offset = clamp_to_viewport window size (dragged d cx cy) }
      else record p { offset = dragged d cx cy }

  unfoldable pub step : Size × Panel → Event → (Size × Panel) × List Str
  unfolding clamp_to_viewport ◌-ℤ◌
  step (w, p) activate = (
    (
      w,
      if p.is_open
          then p
          else record p { is_open = true; offset = clamp_to_viewport w size p.offset },
    ),
    [],
  )
  step (w, p) deactivate = ((w, record p { is_open = false }), [])
  step (w, p) dismiss = ((w, record p { is_open = false }), codes "__edit_mode_dismissed" ∷ [])
  step (w, p) (resize v) =
      ((v, if p.is_open then record p { offset = clamp_to_viewport v size p.offset } else p), [])
  step (w, p) (drag_start x y o) = (
    (w, if p.is_open then record p { drag = some (record { sx = x; sy = y; start = o }) } else p),
    [],
  )
  step (w, p) (drag_move x y) = ((w, moved w p p.drag x y), [])
  step (w, p) drag_end = ((w, record p { drag = none }), [])

  unfoldable pub run : Size × Panel → List Event → Size × Panel
  unfolding step
  run s [] = s
  run s (e ∷ es) = run (step s e).0 es

-- `clamp` of `TweakNumber`, on whole numbers.
unfoldable pub clamp : Option ℤ → Option ℤ → ℤ → ℤ
clamp (some lo) (some hi) n = if ltb_ℤ n lo then lo else if ltb_ℤ hi n then hi else n
clamp (some lo) none n = if ltb_ℤ n lo then lo else n
clamp none (some hi) n = if ltb_ℤ hi n then hi else n
clamp none none n = n
