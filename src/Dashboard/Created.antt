-- ===== src/Dashboard/Created.antt =====
-- Which repositories the dialog asks for.
use orchis_foundry.Prelude.{
  ◌≤◌, true, not, ◌&&◌, ◌||◌, Option, none, some, List, [], ◌∷◌, if-case, and_both, or_neither,
  not-false, ◌≡◌, arith, length, leb, All, session, session-All, Str, trim,
}
use orchis_foundry.Api.{done, failed}
use orchis_foundry.Dashboard.{
  Dialog, Dashboard, Request, post_repo, Event, create, notified, posted, reloaded, is_name_char,
  all_name_chars, is_valid, create_step, step,
}

-- A name of one to a hundred letters, digits, dots, lines and dashes.
abbrev IsRepoPost : Request → Type 0
IsRepoPost (post_repo n name d v) =
    All (λ c. is_name_char c ≡ true) name × (1 ≤ length name) × (length name ≤ 100)
IsRepoPost _ = Unit

all-All : (s : Str) → all_name_chars s ≡ true → All (λ c. is_name_char c ≡ true) s
unfolding all_name_chars
all-All [] h = tt
all-All (c ∷ s) h = let (a, b) = and_both (is_name_char c) (all_name_chars s) h in (a, all-All s b)

valid-IsRepoPost :
    (s : Str)
    → is_valid s ≡ true
    → All (λ c. is_name_char c ≡ true) s × (1 ≤ length s) × (length s ≤ 100)
unfolding is_valid
valid-IsRepoPost s h =
    let (ab, c) = and_both (all_name_chars s && leb 1 (length s)) (leb (length s) 100) h in
    let (a, b) = and_both (all_name_chars s) (leb 1 (length s)) ab in
    (all-All s a, ground arith, ground arith)

create-IsRepoPost : (s : Dashboard) (o : Option Dialog) → All IsRepoPost (create_step s o).1
unfolding create_step
create-IsRepoPost s none = tt
create-IsRepoPost s (some d) =
    if-case (λ (r : Dashboard × List Request). All IsRepoPost r.1)
      (not (is_valid (trim d.name)) || d.busy) _ _ (λ _. tt)
      (λ f. (
        valid-IsRepoPost (trim d.name) (
            not-false (is_valid (trim d.name))
              (or_neither (not (is_valid (trim d.name))) d.busy f).0),
        tt,
      ))

step-IsRepoPost : (s : Dashboard) (e : Event) → All IsRepoPost (step s e).1
unfolding step
step-IsRepoPost s create = create-IsRepoPost s s.dialog
step-IsRepoPost s (posted n (done i)) = (tt, tt)
step-IsRepoPost s (posted n (failed e)) = tt
step-IsRepoPost s (reloaded i) = (tt, tt)
step-IsRepoPost s notified = (tt, tt)
step-IsRepoPost s _ = tt

-- Every repository that a session asks for has such a name.
session-IsRepoPost : (es : List Event) (s : Dashboard) → All IsRepoPost (session step s es).1
session-IsRepoPost es s =
    (session-All step (λ _. Unit {0}) IsRepoPost (λ s e _. (tt, step-IsRepoPost s e)) es s tt).1
