-- ===== src/Settings/Tokens/Posts.antt =====
-- What the requests for a new token carry.
use orchis_foundry.Prelude.{
  true, false, ◌||◌, ◌≤◌, Option, none, some, List, [], ◌∷◌, ◌≡◌, ◌≢◌, refl, ◌∙◌, sym, ◌⊎◌, inl,
  inr, All, session, session-All, arith, Str, trim, trim_idem, eqs, eqs_iff, or_neither, eqs_nil,
  eqs_sym, Bool-cases, includes,
}
use orchis_foundry.Api.{done, failed}
use orchis_foundry.Settings.Tokens.{
  Box, toggle_scope, is_ticked, selected, Form, Tokens, Request, post_token, Event, step,
  submit_form, panel_step, dismiss, unless_shown, Generated, open_form, reset_form, in_form,
  not_created, new_clicked, cancel, submit, saved, type_name, toggle, pick_expiry, rotate, revoke,
  created, rotated, revoked, listed, Expiry, expires_in_days,
}

-- No two boxes of one scope.
abbrev IsApart : List Box → Type 0
IsApart [] = Unit
IsApart (b ∷ bs) = All (λ c. eqs c.id b.id ≡ false) bs × IsApart bs

abbrev pub IsNodup : List Str → Type 0
IsNodup [] = Unit
IsNodup (x ∷ xs) = (includes xs x ≡ false) × IsNodup xs

All-toggle :
    (bs : List Box) (i : Str) (x : Str)
    → eqs i x ≡ false
    → All (λ c. eqs c.id x ≡ false) bs
    → All (λ c. eqs c.id x ≡ false) (toggle_scope bs i)
unfolding toggle_scope
All-toggle [] i x ne h = (ne, tt)
All-toggle (b ∷ bs) i x ne (now, h) = elim (Bool-cases (eqs b.id i)) [
  | inl t ↦ rw t (now, h)
  | inr f ↦ rw f (now, All-toggle bs i x ne h)
]

IsApart-toggle : (bs : List Box) (i : Str) → IsApart bs → IsApart (toggle_scope bs i)
unfolding toggle_scope
IsApart-toggle [] i h = (tt, tt)
IsApart-toggle (b ∷ bs) i (now, h) = elim (Bool-cases (eqs b.id i)) [
  | inl t ↦ rw t (now, h)
  | inr f ↦ rw f (All-toggle bs i b.id (eqs_sym i b.id ∙ f) now, IsApart-toggle bs i h)
]

includes-selected_out :
    (bs : List Box) (x : Str) → All (λ c. eqs c.id x ≡ false) bs → includes (selected bs) x ≡ false
unfolding selected includes
includes-selected_out [] x h = refl
includes-selected_out (b ∷ bs) x (ne, h) = elim (Bool-cases b.is_on) [
  | inl t ↦ rw (t, ne) (includes-selected_out bs x h)
  | inr f ↦ rw f (includes-selected_out bs x h)
]

IsNodup-selected : (bs : List Box) → IsApart bs → IsNodup (selected bs)
unfolding selected
IsNodup-selected [] h = tt
IsNodup-selected (b ∷ bs) (now, h) = elim (Bool-cases b.is_on) [
  | inl t ↦ rw t (includes-selected_out bs b.id now, IsNodup-selected bs h)
  | inr f ↦ rw f (IsNodup-selected bs h)
]

-- What is sent is what is ticked.
includes-selected :
    (bs : List Box) (i : Str) → IsApart bs → includes (selected bs) i ≡ is_ticked bs i
unfolding selected includes is_ticked
includes-selected [] i h = refl
includes-selected (b ∷ bs) i (now, h) = elim (Bool-cases b.is_on) [
  | inl t ↦ elim (Bool-cases (eqs b.id i)) [
    | inl u ↦ rw (t, u) refl
    | inr g ↦ rw (t, g) (includes-selected bs i h)
  ]
  | inr f ↦ elim (Bool-cases (eqs b.id i)) [
    | inl u ↦ rw (f, u) (includes-selected_out bs i (rw (sym ((eqs_iff b.id i).0 u)) now))
    | inr g ↦ rw (f, g) (includes-selected bs i h)
  ]
]

abbrev IsFormApart : Option Form → Type 0
IsFormApart none = Unit
IsFormApart (some f) = IsApart f.scopes

abbrev IsApartIn : Tokens → Type 0
IsApartIn s = IsFormApart s.form

-- A request for a token has a name that is not blank and has no blanks around it, no scope twice, and a
-- number of days that is that of an option.
abbrev pub IsTokenPost : Request → Type 0
IsTokenPost (post_token n name scopes days) =
    (name ≢ []) × (trim name ≡ name) × IsNodup scopes × ((days ≡ 0) ⊎ ((30 ≤ days) × (days ≤ 365)))
IsTokenPost _ = Unit

days_sound :
    (e : Expiry) → (expires_in_days e ≡ 0) ⊎ ((30 ≤ expires_in_days e) × (expires_in_days e ≤ 365))
days_sound e = ground arith

submit-IsTokenPost :
    (s : Tokens) (o : Option Form) → IsFormApart o → All IsTokenPost (submit_form s o).1
unfolding submit_form
submit-IsTokenPost s none h = tt
submit-IsTokenPost s (some f) h = elim (Bool-cases (eqs (trim f.name) [] || f.busy)) [
  | inl t ↦ rw t tt
  | inr g ↦ rw g (
      (
        (
          eqs_nil (trim f.name) (or_neither (eqs (trim f.name) []) f.busy g).0,
          trim_idem f.name,
          IsNodup-selected f.scopes h,
          days_sound f.expires,
        ),
        tt,
      ))
]

-- A change of the open form that keeps its boxes apart.
in_form-IsApart :
    (s : Tokens) (o : Option Form) (f : Form → Form)
    → ((x : Form) → IsApart x.scopes → IsApart (f x).scopes)
    → IsApartIn s
    → IsFormApart o
    → IsApartIn (in_form s o f)
in_form-IsApart s none f keeps h k = h
in_form-IsApart s (some x) f keeps h k = keeps x k

submit-IsApart :
    (s : Tokens) (o : Option Form) → IsApartIn s → IsFormApart o → IsApartIn (submit_form s o).0
unfolding submit_form
submit-IsApart s none h k = h
submit-IsApart s (some f) h k = elim (Bool-cases (eqs (trim f.name) [] || f.busy)) [
  | inl t ↦ rw t h
  | inr g ↦ rw g k
]

open-IsApart :
    (s : Tokens) (o : Option Form)
    → IsApartIn s
    → IsApartIn (open_form s o) × IsApartIn (reset_form s o)
open-IsApart s none h = ((tt, tt), h)
open-IsApart s (some f) h = (h, (tt, tt))

panel-IsTokenPost :
    (s : Tokens) (e : Event)
    → IsApartIn s
    → IsApartIn (panel_step s e).0 × All IsTokenPost (panel_step s e).1
unfolding panel_step
panel-IsTokenPost s new_clicked h = ((open-IsApart s s.form h).0, tt)
panel-IsTokenPost s cancel h = (tt, tt)
panel-IsTokenPost s submit h = (submit-IsApart s s.form h h, submit-IsTokenPost s s.form h)
panel-IsTokenPost s (type_name t) h = (in_form-IsApart s s.form _ (λ x k. k) h h, tt)
panel-IsTokenPost s (toggle i) h =
    (in_form-IsApart s s.form _ (λ x k. IsApart-toggle x.scopes i k) h h, tt)
panel-IsTokenPost s (pick_expiry e) h = (in_form-IsApart s s.form _ (λ x k. k) h h, tt)
panel-IsTokenPost s (rotate i) h = (h, (tt, tt))
panel-IsTokenPost s (revoke i) h = (h, (tt, tt))
panel-IsTokenPost s _ h = (h, tt)

dismiss-IsTokenPost :
    (s : Tokens) (o : Option Generated)
    → IsApartIn s
    → IsApartIn (dismiss s o).0 × All IsTokenPost (dismiss s o).1
dismiss-IsTokenPost s none h = (h, tt)
dismiss-IsTokenPost s (some g) h = (h, (tt, tt))

unless_shown-IsTokenPost :
    (s : Tokens) (e : Event) (o : Option Generated)
    → IsApartIn s
    → IsApartIn (unless_shown s e o).0 × All IsTokenPost (unless_shown s e o).1
unfolding unless_shown
unless_shown-IsTokenPost s e none h = panel-IsTokenPost s e h
unless_shown-IsTokenPost s e (some g) h = (h, tt)

step-IsTokenPost :
    (s : Tokens) (e : Event) → IsApartIn s → IsApartIn (step s e).0 × All IsTokenPost (step s e).1
unfolding step
step-IsTokenPost s saved h = dismiss-IsTokenPost s s.generated h
step-IsTokenPost s (created n (done g)) h = (tt, tt)
step-IsTokenPost s (created n (failed m)) h =
    (in_form-IsApart s s.form (not_created n) (λ x k. not_created-IsApart x k) h h, tt)
  where
    not_created-IsApart : (x : Form) → IsApart x.scopes → IsApart (not_created n x).scopes
    not_created-IsApart x k = ground arith
step-IsTokenPost s (rotated (done g)) h = ((open-IsApart s s.form h).1, tt)
step-IsTokenPost s (rotated (failed m)) h = (h, tt)
step-IsTokenPost s (revoked n true) h = (h, (tt, tt))
step-IsTokenPost s (revoked n false) h = (h, tt)
step-IsTokenPost s (listed n r) h = (ground (arith, h), tt)
step-IsTokenPost s e h = unless_shown-IsTokenPost s e s.generated h

-- In a session that starts with no form open, every token that is asked for has a name that is not blank
-- and has no blanks around it, no scope twice, and no end or one in 30 to 365 days.
pub session-IsTokenPost :
    (es : List Event) (s : Tokens) → s.form ≡ none → All IsTokenPost (session step s es).1
session-IsTokenPost es s h =
    (session-All step IsApartIn IsTokenPost step-IsTokenPost es s (rw h tt)).1
