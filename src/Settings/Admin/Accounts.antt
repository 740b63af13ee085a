-- ===== src/Settings/Admin/Accounts.antt =====
-- What the panel of the accounts asks for, and what it says of a request that is refused.
use orchis_foundry.Prelude.{
  ◌≤◌, Bool, true, false, not, ◌&&◌, Option, none, some, List, [], ◌++◌, if-case, and_both,
  or_neither, not-true, eqs_nil, Bool-cases, length, ltb, ◌≡◌, ◌≢◌, arith, All, All-append, session,
  session-All, inl, inr, Str, codes, Lacks, eqs,
}
use orchis_foundry.Api.{done, failed, Response, answer, ok, status_text, caught, patch, del}
use orchis_foundry.Api.Errors.{err_msg-calls}
use orchis_foundry.Settings.Admin.{
  NewUser, Users, Request, patch_user, post_user, password, Event, create, flip_admin,
  flip_disabled, delete_clicked, reset_password, listed, acted, created, is_held, reset_request,
  cleared, step,
}

-- A new user has an email address and a password of eight characters or more, and a password that is
-- reset is not empty.
abbrev IsUserPost : Request → Type 0
IsUserPost (post_user u) = (u.email ≢ []) × (8 ≤ length u.password)
IsUserPost (patch_user i (password p)) = p ≢ []
IsUserPost _ = Unit

held_false : (u : NewUser) → is_held u ≡ false → (u.email ≢ []) × (8 ≤ length u.password)
unfolding is_held
held_false u h =
    let (e, p) = or_neither (eqs u.email []) (ltb (length u.password) 8) h in
    (eqs_nil u.email e, ground arith)

reset-IsUserPost :
    (s : Users) (i : Str) (o : Option Str) → All IsUserPost (cleared s (reset_request i o)).1
reset-IsUserPost s i none = tt
reset-IsUserPost s i (some p) = elim (Bool-cases (eqs p [])) [
  | inl t ↦ rw t tt
  | inr f ↦ rw f (eqs_nil p f, tt)
]

step-IsUserPost : (s : Users) (e : Event) → All IsUserPost (step s e).1
unfolding step
step-IsUserPost s create =
    if-case (λ (r : Users × List Request). All IsUserPost r.1) (s.creating && not (is_held s.form))
      _ (s, [])
      (λ t. (
        held_false s.form
            (not-true (is_held s.form) (and_both s.creating (not (is_held s.form)) t).1),
        tt,
      ))
      (λ _. tt)
step-IsUserPost s (reset_password i o) = reset-IsUserPost s i o
step-IsUserPost s (acted none) = (tt, tt)
step-IsUserPost s (created none) = (tt, tt)
step-IsUserPost s (flip_admin u) = (tt, tt)
step-IsUserPost s (flip_disabled u) = (tt, tt)
step-IsUserPost s (delete_clicked i true) = (tt, tt)
step-IsUserPost s (listed (done o)) = tt
step-IsUserPost s (listed (failed e)) = tt
step-IsUserPost s _ = tt

abbrev pub path_of : Str → Str
path_of i = codes "/v1/admin/users/" ++ i

path_of-Lacks : (i : Str) → Lacks 62 i → Lacks 62 (path_of i)
path_of-Lacks i h = All-append (λ c. c ≢ 62) (codes "/v1/admin/users/") i (ground arith) h

-- Where the server refuses an action on a user whose id has no `>`, the change or the removal of the user
-- alike, the error that is shown names the status of the answer.
pub step-refused :
    (s : Users) (i : Str) (r : Response Bool)
    → ok r.status ≡ false
    → Lacks 62 i
    → ((step s (acted (caught (patch (path_of i) (answer r))))).0.err
        ≡ codes "Action failed (" ++ status_text r.status ++ codes ").")
      × ((step s (acted (caught (del (path_of i) (answer r))))).0.err
          ≡ codes "Action failed (" ++ status_text r.status ++ codes ").")
unfolding step
step-refused s i r h lacks =
    let (e, _, p, _, _, d, m) = err_msg-calls (path_of i) r h (path_of-Lacks i lacks) in
    (rw p m, rw d m)

-- Every request of a session is sound.
session-IsUserPost : (es : List Event) (s : Users) → All IsUserPost (session step s es).1
session-IsUserPost es s =
    (session-All step (λ _. Unit {0}) IsUserPost (λ s e _. (tt, step-IsUserPost s e)) es s tt).1
