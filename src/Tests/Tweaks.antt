-- ===== src/Tests/Tweaks.antt =====
-- The panel of tweaks in a concrete session.
use orchis_foundry.Prelude.{
  ltb, true, false, none, some, List, [], ◌∷◌, ◌≡◌, inl, inr, refl, codes, session,
}
use orchis_foundry.Prelude.Int.{pos, negsuc}
use orchis_foundry.Tweaks.Panel.{
  Size, new_panel, Event, activate, drag_start, drag_move, drag_end, resize, run, clamp,
}
use orchis_foundry.Tweaks.Colours.{is_light, hex_digit, luminance}
use orchis_foundry.Tweaks.Colours.Luminance.{is_light_lem}
use orchis_foundry.Tweaks.Radio
use orchis_foundry.Tweaks.Radio.Choice.{IsApart, resolve-string_of}
use orchis_foundry.Tweaks.Panel.Bounds.{IsPlaced, run-IsPlaced}

tweaks : Unit {0}
unfolding run clamp
tweaks = tt

abbrev window : Size
window = record { width = 800; height = 600 }

abbrev panel : Size
panel = record { width = 280; height = 400 }

abbrev drag : List Event
drag =
    activate
    ∷ drag_start (pos 700) (pos 300) (record { x = pos 16; y = pos 16 })
    ∷ drag_move (pos 750) (negsuc 900)
    ∷ drag_end
    ∷ resize (record { width = 300; height = 600 })
    ∷ []

dragged_to : (run panel (window, new_panel) drag).1.offset ≡ record { x = pos 16; y = pos 184 }
unfolding tweaks
dragged_to = refl

clamped_number : clamp (some (pos 1)) none (negsuc 3) ≡ pos 1
unfolding tweaks
clamped_number = refl

closed-IsPlaced : IsPlaced panel (window, new_panel)
closed-IsPlaced b = cc b

run-IsPlaced_example : IsPlaced panel (run panel (window, new_panel) drag)
run-IsPlaced_example = run-IsPlaced panel drag (window, new_panel) closed-IsPlaced

abbrev options : List Radio.TweakOption
options =
    Radio.plain (Radio.text (codes "auto"))
    ∷ Radio.labelled (Radio.number 12) (codes "a dozen of them")
    ∷ Radio.plain (Radio.truth true)
    ∷ []

radio : Unit {0}
unfolding Radio.step Radio.fits_as_segments Radio.resolve
radio = tt

as_dropdown : Radio.fits_as_segments options ≡ false
unfolding radio
as_dropdown = refl

-- A press and a drag to the right of the track change the value once each.
dragged_values :
    (session
      (Radio.step options 240)
      (record { value = Radio.number 12; dragging = false })
      (Radio.pointer_down (negsuc 3)
        ∷ Radio.pointer_move (pos 79)
        ∷ Radio.pointer_move (pos 900)
        ∷ Radio.pointer_up
        ∷ Radio.pointer_move (pos 1)
        ∷ [])).1
    ≡ Radio.text (codes "auto") ∷ Radio.truth true ∷ []
unfolding radio session
dragged_values = refl

options-IsApart : IsApart options
unfolding radio
options-IsApart = ((refl, (refl, tt)), ((refl, tt), (tt, tt)))

resolve-string_of_example :
    Radio.resolve options (Radio.string_of (Radio.number 12)) ≡ Radio.number 12
resolve-string_of_example =
    resolve-string_of options (Radio.labelled (Radio.number 12) (codes "a dozen of them"))
      options-IsApart (inr (inl refl))

colours : Unit {0}
unfolding is_light hex_digit
colours = tt

-- The text is dark on a pale colour and light on a deep one; `parseInt` stops at the first unit that is no
-- digit, and a name of a colour may be read as a number.
some_colours :
    (is_light (codes "#fafafa") ≡ true)
    × (is_light (codes "#111") ≡ false)
    × (is_light (codes "salmon") ≡ true)
    × (is_light (codes "beige") ≡ false)
unfolding colours
some_colours = (refl, refl, refl, refl)

is_light_lem_example :
    (is_light (codes "#fa00C8") ≡ ltb 148000 (luminance 250 0 200))
    × (is_light (codes "#fa0") ≡ ltb 148000 (luminance 255 170 0))
unfolding colours
is_light_lem_example = is_light_lem 102 97 48 48 67 56 15 10 0 0 12 8 refl refl refl refl refl refl
