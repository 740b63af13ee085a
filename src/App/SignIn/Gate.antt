-- ===== src/App/SignIn/Gate.antt =====
-- Who is let into the application.
use orchis_foundry.Prelude.{
  ℕ, true, false, Option, none, some, List, Bool-cases, inl, inr, ◌≡◌, ◌≢◌, ◌↔◌, refl, ap, Str,
  codes, ◌==◌, ==_iff, arith,
}
use orchis_foundry.Api.{
  Result, done, failed, Fetched, unreachable, answer, Response, ok, get, refusal,
}
use orchis_foundry.App.SignIn.{
  loading, authed, signin, User, Me, hydrate, Root, me_body, me_answered, repos_answered, root,
}

-- The status of the answer, where there is one.
abbrev pub status_of : Fetched (Option Me) → Option ℕ
status_of (unreachable e) = none
status_of (answer r) = some r.status

-- What the gate comes to, by what a call of the API client gives for the same answer; the user and the
-- repositories are those of the page before.
record Ends (u : User) (mock : List Str) (g : Root) (c : Result (Option Me)) : Type 0 where
  waiting : (g.state ≡ loading) ↔ (c ≡ done none)
  known : (m : Me) → c ≡ done (some m) → (g.state ≡ authed) × (g.user ≡ hydrate u m)
  unknown : (e : Str) → c ≡ failed e → (g.user ≡ u) × (g.repos ≡ mock)

abbrev first : User → List Str → Root
first u mock = record { state = loading; user = u; repos = mock; waits_repos = false }

-- The body, where no status stands against it.
body_ends :
    (u : User) (mock : List Str) (o : Option (List Str)) (c : Result (Option Me))
    → Ends u mock (repos_answered (me_body (first u mock) c) o) c
      × ((repos_answered (me_body (first u mock) c) o).state ≢ signin)
unfolding me_body repos_answered
body_ends u mock o (done none) = (
  record { waiting = (λ _. refl, λ _. refl); known = λ m e. cc e; unknown = λ e q. cc q },
  λ e. cc e,
)
body_ends u mock o (done (some m)) = (
  record {
    waiting = (λ e. cc e, λ e. cc e);
    known = λ k e. (refl, (let same : m ≡ k = cc e in ap (hydrate u) same));
    unknown = λ e q. cc q;
  },
  λ e. cc e,
)
body_ends u mock o (failed e) = (
  record { waiting = (λ e. cc e, λ e. cc e); known = λ m e. cc e; unknown = λ e q. (refl, refl) },
  λ e. cc e,
)

-- A status other than 401 leaves it to what the call gives.
answered_ok :
    (g : Root) (r : Response (Option Me))
    → (r.status == 401) ≡ false
    → ok r.status ≡ true
    → me_answered g (answer r) ≡ me_body g r.body
unfolding me_answered
answered_ok g r n t = rw (n, t) refl

answered_refused :
    (g : Root) (r : Response (Option Me))
    → (r.status == 401) ≡ false
    → ok r.status ≡ false
    → me_answered g (answer r) ≡ me_body g (failed (codes "me failed"))
unfolding me_answered
answered_refused g r n f = rw (n, f) refl

get-ok : (path : Str) (r : Response (Option Me)) → ok r.status ≡ true → get path (answer r) ≡ r.body
unfolding get
get-ok path r t = rw t refl

get_refused :
    (path : Str) (r : Response (Option Me))
    → ok r.status ≡ false
    → get path (answer r) ≡ failed (refusal path r.status)
unfolding get
get_refused path r f = rw f refl

-- The text of the error does not matter.
Ends-failed :
    (u : User) (mock : List Str) (g : Root) (d e : Str)
    → Ends u mock g (failed d)
    → Ends u mock g (failed e)
Ends-failed u mock g d e h = record {
  waiting = (λ w. let x = h.waiting.0 w in cc x, λ q. cc q);
  known = λ m q. cc q;
  unknown = λ k q. h.unknown d refl;
}

root_parts :
    (u : User) (mock : List Str) (a : Fetched (Option Me)) (o : Option (List Str)) (g : Root)
    → me_answered (first u mock) a ≡ g
    → root u mock a o ≡ repos_answered g o
unfolding root
root_parts u mock a o g e = ap (λ x. repos_answered x o) e

passed :
    (path : Str) (u : User) (mock : List Str) (r : Response (Option Me)) (o : Option (List Str))
    → (r.status == 401) ≡ false
    → Ends u mock (root u mock (answer r) o) (get path (answer r))
      × ((root u mock (answer r) o).state ≢ signin)
passed path u mock r o n = elim (Bool-cases (ok r.status)) [
  | inl t ↦
      rw (root_parts u mock (answer r) o _ (answered_ok (first u mock) r n t), get-ok path r t)
        (body_ends u mock o r.body)
  | inr f ↦
      let (h, w) = body_ends u mock o (failed (codes "me failed")) in
      rw
        (
          root_parts u mock (answer r) o _ (answered_refused (first u mock) r n f),
          get_refused path r f,
        )
        (Ends-failed u mock _ (codes "me failed") _ h, w)
]

-- The status 401.
answered_401 :
    (g : Root) (r : Response (Option Me))
    → (r.status == 401) ≡ true
    → me_answered g (answer r) ≡ record g { state = signin }
unfolding me_answered
answered_401 g r y = rw y refl

refused_401 : (n : ℕ) → (n == 401) ≡ true → ok n ≡ false
refused_401 n y = ground arith

asked_in :
    (path : Str) (u : User) (mock : List Str) (r : Response (Option Me)) (o : Option (List Str))
    → (r.status == 401) ≡ true
    → Ends u mock (root u mock (answer r) o) (get path (answer r))
      × ((root u mock (answer r) o).state ≡ signin)
unfolding repos_answered
asked_in path u mock r o y =
    rw
      (
        root_parts u mock (answer r) o _ (answered_401 (first u mock) r y),
        get_refused path r (refused_401 r.status y),
      )
      (
        record {
          waiting = (λ e. cc e, λ e. cc e);
          known = λ m e. cc e;
          unknown = λ e q. (refl, refl);
        },
        refl,
      )

unanswered :
    (path : Str) (u : User) (mock : List Str) (e : Str) (o : Option (List Str))
    → Ends u mock (root u mock (unreachable e) o) (get path (unreachable e))
      × ((root u mock (unreachable e) o).state ≢ signin)
unfolding root me_answered get
unanswered path u mock e o = body_ends u mock o (failed e)

-- For every end of the request for /v1/me: the sign-in form is shown exactly where the status of the answer
-- is 401. The page waits for good exactly where a call of the API client would give no user. Where the
-- call would give a user, the application is shown with that user; where it would fail, the user and the
-- repositories are those of the mock data.
pub root_lem :
    (path : Str) (u : User) (mock : List Str) (a : Fetched (Option Me)) (o : Option (List Str))
    → (((root u mock a o).state ≡ signin) ↔ (status_of a ≡ some 401))
      × (((root u mock a o).state ≡ loading) ↔ (get path a ≡ done none))
      × ((m : Me)
          → get path a ≡ done (some m)
          → ((root u mock a o).state ≡ authed) × ((root u mock a o).user ≡ hydrate u m))
      × ((e : Str)
          → get path a ≡ failed e
          → ((root u mock a o).user ≡ u) × ((root u mock a o).repos ≡ mock))
root_lem path u mock (unreachable e) o =
    let (h, n) = unanswered path u mock e o in
    ((λ s. absurd (n s), λ q. cc q), h.waiting, h.known, h.unknown)
root_lem path u mock (answer r) o = elim (Bool-cases (r.status == 401)) [
  | inl y ↦
      let (h, s) = asked_in path u mock r o y in
      ((λ _. ap some ((==_iff r.status 401).0 y), λ _. s), h.waiting, h.known, h.unknown)
  | inr f ↦
      let (h, n) = passed path u mock r o f in
      ((λ s. absurd (n s), λ q. absurd (other f q)), h.waiting, h.known, h.unknown)
]
  where
    other : (r.status == 401) ≡ false → some r.status ≡ some 401 → ⊥
    other f q = let same : r.status ≡ 401 = cc q in ground (arith, same)
