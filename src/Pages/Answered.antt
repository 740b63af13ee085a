-- ===== src/Pages/Answered.antt =====
-- What a page draws between a route and the answer to it.
use orchis_foundry.Prelude.{Bool, true, false, none, some, [], ◌∷◌, ◌≡◌, refl}
use orchis_foundry.Api.{Result, done, failed}
use orchis_foundry.Pages.{RoutePage, show, got, step, asked, Drawn, drawn}

-- What one answer draws.
abbrev drawn_of : {A : Type 0} → Result A → Drawn A
drawn_of (done a) = record { not_found = false; loading = false; content = some a }
drawn_of (failed e) = record { not_found = true; loading = false; content = none }

got-drawn :
    {K A : Type 0} (same : K → K → Bool) (is_blank : K → Bool) (p : RoutePage K A) (r : Result A)
    → p.content ≡ none
    → p.err ≡ false
    → drawn (step same is_blank p (got r)).0 ≡ drawn_of r
unfolding step
got-drawn same is_blank p (done a) c e = rw e refl
got-drawn same is_blank p (failed m) c e = rw c refl

-- A route that names something else asks for it once and draws that it is loaded, whatever was drawn
-- before; then one answer draws the content alone or the error alone.
show_lem :
    {K A : Type 0} (same : K → K → Bool) (is_blank : K → Bool) (p : RoutePage K A) (k : K)
    → same p.key k ≡ false
    → is_blank k ≡ false
    → ((step same is_blank p (show k)).1 ≡ k ∷ [])
      × (drawn (step same is_blank p (show k)).0
          ≡ record { not_found = false; loading = true; content = none })
      × ((r : Result A)
          → drawn (step same is_blank (step same is_blank p (show k)).0 (got r)).0 ≡ drawn_of r)
unfolding step asked
show_lem same is_blank p k s b = (
  rw (s, b) refl,
  rw (s, b) refl,
  λ r.
      got-drawn same is_blank (step same is_blank p (show k)).0 r (rw (s, b) refl) (rw (s, b) refl),
)
