-- ===== src/Repo/Code/Panels.antt =====
-- The blame and the outline.
use orchis_foundry.Prelude.{Bool, false, ◌&&◌, List, [], ◌∷◌, ◌≡◌, arith, Str}
use orchis_foundry.Repo.Code.{CodeView, Event, step, run, load}

abbrev both : CodeView → Bool
both v = v.show_blame && v.show_outline

both-step :
    (w : Bool) (d : Str) (v : CodeView) (e : Event) → both v ≡ false → both (step w d v e).0 ≡ false
unfolding step load
both-step w d v e h = ground arith

-- The blame and the outline are never shown together.
run-exclusive :
    (can_write : Bool) (def_branch : Str) (es : List Event) (v : CodeView)
    → (v.show_blame && v.show_outline) ≡ false
    → ((run can_write def_branch v es).0.show_blame
        && (run can_write def_branch v es).0.show_outline)
      ≡ false
unfolding run
run-exclusive w d [] v h = h
run-exclusive w d (e ∷ es) v h = run-exclusive w d es (step w d v e).0 (both-step w d v e h)
