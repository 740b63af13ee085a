-- ===== src/Settings/Hooks/Posts.antt =====
-- What the requests for a new webhook carry, and how many are under way.
use orchis_foundry.Prelude.{
  ℕ, suc, ◌+◌, ◌≤◌, Bool, true, false, not, ◌||◌, List, [], ◌∷◌, ◌++◌, if◌then◌else◌, ◌≡◌, ◌≢◌,
  refl, ◌∙◌, inl, inr, All, arith, Str, total, session, session-All, session-waits, trim, eqs,
  length, ◌==◌, eqs_iff, eqs_sym, if-case, includes-append, includes-one, eqs_nil, Bool-cases,
  includes, filter,
}
use orchis_foundry.Settings.Tokens.Posts.{IsNodup}
use orchis_foundry.Settings.Hooks.{
  Hooks, Request, post_hook, Event, added, add, new_clicked, cancel, type_url, type_secret,
  pick_repo, toggle, test, remove, listed, removed, test_answered, owned_changed, timer, no_events,
  no_repo, new_hooks, toggle_event, add_hook, step,
}

includes-filter_out :
    (l : List Str) (e x : Str)
    → includes l x ≡ false
    → includes (filter (λ y. not (eqs y e)) l) x ≡ false
unfolding includes
includes-filter_out [] e x h = refl
includes-filter_out (y ∷ l) e x h = elim (Bool-cases (eqs y e)) [
  | inl t ↦ rw t (includes-filter_out l e x (ground arith))
  | inr f ↦ elim (Bool-cases (eqs y x)) [
    | inl u ↦ cc (rw u at h)
    | inr g ↦ rw (f, g) (includes-filter_out l e x (rw g at h))
  ]
]

IsNodup-filter : (l : List Str) (e : Str) → IsNodup l → IsNodup (filter (λ y. not (eqs y e)) l)
IsNodup-filter [] e h = tt
IsNodup-filter (y ∷ l) e (now, h) = elim (Bool-cases (eqs y e)) [
  | inl t ↦ rw t (IsNodup-filter l e h)
  | inr f ↦ rw f (includes-filter_out l e y now, IsNodup-filter l e h)
]

includes-snoc :
    (l : List Str) (e x : Str)
    → includes l x ≡ false
    → eqs e x ≡ false
    → includes (l ++ e ∷ []) x ≡ false
includes-snoc l e x h f = rw (includes-append l (e ∷ []) x, h, includes-one e x) f

IsNodup-snoc : (l : List Str) (e : Str) → IsNodup l → includes l e ≡ false → IsNodup (l ++ e ∷ [])
unfolding includes
IsNodup-snoc [] e h f = (refl, tt)
IsNodup-snoc (y ∷ l) e (now, h) f = elim (Bool-cases (eqs y e)) [
  | inl t ↦ cc (rw t at f)
  | inr g ↦ (includes-snoc l e y now (eqs_sym e y ∙ g), IsNodup-snoc l e h (rw g at f))
]

IsNodup-toggle : (l : List Str) (e : Str) → IsNodup l → IsNodup (toggle_event l e)
unfolding toggle_event
IsNodup-toggle l e h = elim (Bool-cases (includes l e)) [
  | inl t ↦ rw t (IsNodup-filter l e h)
  | inr f ↦ rw f (IsNodup-snoc l e h f)
]

-- A request for a webhook names a repository, and some events, none of them twice.
abbrev pub IsHookPost : Request → Type 0
IsHookPost (post_hook repo url events secret) = (repo ≢ []) × (events ≢ []) × IsNodup events
IsHookPost _ = Unit

-- The events that are ticked are apart, and the message for a user without repositories is not shown.
abbrev IsWell : Hooks → Type 0
IsWell s = IsNodup s.events × (eqs s.err no_repo ≡ false)

-- Of a state with what is sent.
abbrev IsGood : Hooks × List Request → Type 0
IsGood r = IsWell r.0 × All IsHookPost r.1

post-IsGood :
    (s : Hooks) (l : List Str)
    → s.events ≡ l
    → IsWell s
    → eqs s.repo [] ≡ false
    → IsGood (elim l [
      | [] ↦ (record s { err = no_events }, [])
      | e ∷ es ↦ (
        record s { err = []; busy = true },
        post_hook s.repo (trim s.url) s.events (trim s.secret) ∷ [],
      )
    ])
unfolding eqs
post-IsGood s [] p h r = ((h.0, refl), tt)
post-IsGood s (e ∷ es) p h r = ((h.0, refl), ((eqs_nil s.repo r, λ q. cc (p, q), h.0), tt))

or_left : (a b c : Bool) → (a || b || c) ≡ false → b ≡ false
or_left a b c h = ground arith

add_hook-IsGood : (s : Hooks) → IsWell s → IsGood (add_hook s)
unfolding add_hook
add_hook-IsGood s h =
    if-case IsGood (eqs s.url [] || eqs s.repo [] || s.busy) _ _ (λ _. (h, tt))
      (λ f.
        let r = or_left (eqs s.url []) (eqs s.repo []) s.busy f in
        if-case IsGood (eqs s.repo []) _ _ (λ t. cc) (λ _. post-IsGood s s.events refl h r))

-- A field of the form that is typed.
open-IsWell : (s t : Hooks) → IsWell s → IsWell t → IsWell (if s.is_open then t else s)
open-IsWell s t h k = if-case IsWell s.is_open t s (λ _. k) (λ _. h)

step-IsGood : (s : Hooks) (e : Event) → IsWell s → IsGood (step s e)
unfolding step
step-IsGood s new_clicked h = ((h.0, refl), tt)
step-IsGood s cancel h = (open-IsWell s _ h (h.0, refl), tt)
step-IsGood s (type_url t) h = (open-IsWell s _ h h, tt)
step-IsGood s (type_secret t) h = (open-IsWell s _ h h, tt)
step-IsGood s (pick_repo t) h = (open-IsWell s _ h h, tt)
step-IsGood s (toggle e) h = (open-IsWell s _ h (IsNodup-toggle s.events e h.0, h.1), tt)
step-IsGood s add h = if-case IsGood s.is_open _ _ (λ _. add_hook-IsGood s h) (λ _. (h, tt))
step-IsGood s (test w) h = (h, (tt, tt))
step-IsGood s (remove w) h = (h, (tt, tt))
step-IsGood s (listed r) h = (h, tt)
step-IsGood s (added true) h = (((refl, tt), h.1), (tt, tt))
step-IsGood s (added false) h = ((h.0, refl), tt)
step-IsGood s (removed true) h = (h, (tt, tt))
step-IsGood s (removed false) h = (h, tt)
step-IsGood s (test_answered i ok) h = (if-case IsWell ok _ _ (λ _. h) (λ _. h), tt)
step-IsGood s (owned_changed owned) h =
    (if-case IsWell (s.owned_count == length owned) s _ (λ _. h) (λ _. h), tt)
step-IsGood s timer h = (h, tt)

-- In a session from the first state on, every webhook that is asked for names a repository and some
-- events, none of them twice, and the message for a user without repositories is never shown.
pub session-IsHookPost :
    (owned : List Str) (es : List Event)
    → All IsHookPost (session step (new_hooks owned) es).1
      × ((session step (new_hooks owned) es).0.err ≢ no_repo)
unfolding includes
session-IsHookPost owned es =
    let (well, sound) =
      session-All step IsWell IsHookPost step-IsGood es (new_hooks owned) ((refl, tt), refl) in
    (sound, λ e. cc ((eqs_iff _ no_repo).1 e, well.1))

pub posts : Request → ℕ
posts (post_hook r u es s) = 1
posts _ = 0

unfoldable pub answers : Event → ℕ
answers (added ok) = 1
answers _ = 0

unfoldable waits : Hooks → ℕ
waits s = if s.busy then 1 else 0

waits_one : (s : Hooks) → waits s ≤ 1
unfolding waits
waits_one s = ground arith

step-waits :
    (s : Hooks) (e : Event) → total posts (step s e).1 + waits s ≤ answers e + waits (step s e).0
unfolding step add_hook posts answers waits
step-waits s e = ground arith

-- At most one webhook is being added: those that a session posts are at most one more than the answers
-- that it sees.
pub session-one :
    (owned : List Str) (es : List Event)
    → total posts (session step (new_hooks owned) es).1 ≤ suc (total answers es)
session-one owned es = omega (
  arith,
  session-waits step posts answers waits step-waits es (new_hooks owned),
  waits_one (session step (new_hooks owned) es).0,
)
