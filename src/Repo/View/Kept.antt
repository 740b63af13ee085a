-- ===== src/Repo/View/Kept.antt =====
-- The parts of the view go with the repository that is shown.
use orchis_foundry.Prelude.{
  Bool, ◌⊎◌, ℕ, suc, ◌≤◌, true, false, Option, none, some, List, [], ◌∷◌, ◌++◌, if-case, Bool-cases,
  inl, inr, ◌==◌, ==_iff, ◌≡◌, ◌≢◌, ◌∙◌, refl, sym, ap, arith, All, All-append, All-In, In, session,
  Str, eqs, eqs_refl,
}
use orchis_foundry.Prelude.Int.{ℤ, pos, ◌≤ℤ◌, ◌+ℤ◌, ◌-ℤ◌, min_ℤ, max_ℤ}
use orchis_foundry.Api.{Result}
use orchis_foundry.Repo.Tree.{Nodes}
use orchis_foundry.Repo.Pins.{PinState, load_pins, show_repo, toggle_pin_file, Meta}
use orchis_foundry.Repo.View.{
  RepoView, repo_requests, Grip, Request, get_tree, get_repo, mark, repos_changed, Event, show,
  got_tree, got_repo, toggle_dir, pick_file, pin_path, pick_tab, star, pin, settings_opened,
  settings_closed, release, pin_answered, grab, drag, resized, or_active, same_file, with_repo,
  with_file, step, mounted,
}

-- The pins are those of the repository that is shown, and the tree has a width from 180 to 420.
abbrev pub IsKept : RepoView → Type 0
IsKept v = (v.pins.repo ≡ v.repo) × (pos 180 ≤ℤ v.tree_width) × (v.tree_width ≤ℤ pos 420)

-- The pins are those that the storage has for their repository.
abbrev IsStored : PinState → Type 0
IsStored p = p.pins ≡ load_pins p.store p.repo

-- A request whose answer will be taken is for the repository that is shown.
abbrev IsForRepo : RepoView → Request → Type 0
IsForRepo v (get_tree n r) = (n ≤ v.asked) × (n ≡ v.asked → r ≡ v.repo)
IsForRepo v (mark r m) = Unit
IsForRepo v (get_repo r) = Unit
IsForRepo v repos_changed = Unit

width-bounds :
    (w : ℤ)
    → (pos 180 ≤ℤ max_ℤ (pos 180) (min_ℤ (pos 420) w))
      × (max_ℤ (pos 180) (min_ℤ (pos 420) w) ≤ℤ pos 420)
unfolding min_ℤ max_ℤ
width-bounds w = ground arith

-- The view after a step, with what keeps a request that is under way for the repository.
record Steps (v : RepoView) (r : RepoView × List Request) : Type 0 where
  kept : IsKept r.0
  later : v.asked ≤ r.0.asked
  same : r.0.asked ≡ v.asked → r.0.repo ≡ v.repo
  sent : All (IsForRepo r.0) r.1

-- An event that changes neither the repository nor what is kept.
stays :
    (v w : RepoView) (rs : List Request)
    → IsKept w
    → w.asked ≡ v.asked
    → w.repo ≡ v.repo
    → All (IsForRepo w) rs
    → Steps v (w, rs)
stays v w rs k a r s = record { kept = k; later = omega (arith, a); same = λ _. r; sent = s }

with_file-Steps :
    (v w : RepoView) (rs : List Request) (file : Option Str)
    → Steps v (w, rs)
    → Steps v (with_file w file, rs)
with_file-Steps v w rs file h =
    if-case (λ u. Steps v (u, rs)) (same_file w.file file) w _ (λ _. h)
      (λ _. record { kept = h.kept; later = h.later; same = h.same; sent = sent_by rs h.sent })
  where
    sent_by :
        (rs : List Request)
        → All (IsForRepo w) rs
        → All (IsForRepo (record w { file = file; active = or_active w.active file })) rs
    sent_by [] a = tt
    sent_by (get_tree n r ∷ rs) (h, a) = (h, sent_by rs a)
    sent_by (get_repo r ∷ rs) (h, a) = (tt, sent_by rs a)
    sent_by (mark r m ∷ rs) (h, a) = (tt, sent_by rs a)
    sent_by (repos_changed ∷ rs) (h, a) = (tt, sent_by rs a)

requests-IsForRepo :
    (v : RepoView) (n : ℕ) (repo : Str)
    → n ≡ v.asked
    → repo ≡ v.repo
    → All (IsForRepo v) (repo_requests n repo)
requests-IsForRepo v n repo a e =
    if-case (All (IsForRepo v)) (eqs repo []) [] _ (λ _. tt)
      (λ _. ((omega (arith, a), λ _. e), (tt, tt)))

with_repo-Steps : (v : RepoView) (repo : Str) → IsKept v → Steps v (with_repo v repo)
unfolding with_repo show_repo
with_repo-Steps v repo k =
    if-case (Steps v) (eqs v.repo repo) _ _ (λ _. stays v v [] k refl refl tt)
      (λ _. record {
        kept = (refl, k.1, k.2);
        later = omega arith;
        same = λ e. absurd (ahead e);
        sent =
            requests-IsForRepo
              (record v {
                repo = repo;
                pins = show_repo v.pins repo;
                tree = none;
                asked = suc v.asked;
              })
              (suc v.asked) repo refl refl;
      })
  where
    ahead : suc v.asked ≡ v.asked → ⊥
    ahead e = omega (arith, e)

pin_path-IsKept :
    (v : RepoView) (path : Str) (taken : Bool)
    → IsKept v
    → IsKept (record v { pins = toggle_pin_file v.pins path taken })
unfolding toggle_pin_file
pin_path-IsKept v path taken k = k

resized-Steps : (v : RepoView) (o : Option Grip) (x : ℤ) → IsKept v → Steps v (resized v o x, [])
resized-Steps v none x k = stays v v [] k refl refl tt
resized-Steps v (some g) x (r, w, z) =
    let (low, high) = width-bounds (g.start_w +ℤ (x -ℤ g.start_x)) in
    stays v _ [] (r, low, high) refl refl tt

step-Steps : (v : RepoView) (e : Event) → IsKept v → Steps v (step v e)
unfolding step
step-Steps v (show repo file) k =
    with_file-Steps v (with_repo v repo).0 (with_repo v repo).1 file (with_repo-Steps v repo k)
step-Steps v (got_tree n t) k =
    if-case (λ w. Steps v (w, [])) (n == v.asked) _ v (λ _. stays v _ [] k refl refl tt)
      (λ _. stays v v [] k refl refl tt)
step-Steps v (got_repo m) k = stays v _ [] k refl refl tt
step-Steps v (toggle_dir path) k = stays v _ [] k refl refl tt
step-Steps v (pick_file path) k = stays v _ [] k refl refl tt
step-Steps v (pin_path path taken) k = stays v _ [] (pin_path-IsKept v path taken k) refl refl tt
step-Steps v (pick_tab t) k = stays v _ [] k refl refl tt
step-Steps v star k = stays v _ _ k refl refl (tt, tt)
step-Steps v pin k = stays v _ _ k refl refl (tt, tt)
step-Steps v (pin_answered true) k = stays v v _ k refl refl (tt, tt)
step-Steps v (pin_answered false) k = stays v v _ k refl refl tt
step-Steps v settings_opened k = stays v _ [] k refl refl tt
step-Steps v settings_closed k = stays v _ [] k refl refl tt
step-Steps v (grab x) k = stays v _ [] k refl refl tt
step-Steps v (drag x) k = resized-Steps v v.grip x k
step-Steps v release k = stays v _ [] k refl refl tt

kept-IsForRepo :
    (v w : RepoView) (q : Request)
    → v.asked ≤ w.asked
    → (w.asked ≡ v.asked → w.repo ≡ v.repo)
    → IsForRepo v q
    → IsForRepo w q
kept-IsForRepo v w (get_tree n r) l s (b, h) = (
  omega (arith, l, b),
  λ e. let same : w.asked ≡ v.asked = omega (arith, l, b, e) in h (e ∙ same) ∙ sym (s same),
)
kept-IsForRepo v w (get_repo r) l s h = tt
kept-IsForRepo v w (mark r m) l s h = tt
kept-IsForRepo v w repos_changed l s h = tt

All-kept :
    (v w : RepoView)
    → v.asked ≤ w.asked
    → (w.asked ≡ v.asked → w.repo ≡ v.repo)
    → (qs : List Request) → All (IsForRepo v) qs
    → All (IsForRepo w) qs
All-kept v w l s [] h = tt
All-kept v w l s (q ∷ qs) (h, hs) = (kept-IsForRepo v w q l s h, All-kept v w l s qs hs)

session-Steps : (es : List Event) (v : RepoView) → IsKept v → Steps v (session step v es)
unfolding session
session-Steps [] v k = stays v v [] k refl refl tt
session-Steps (e ∷ es) v k =
    let m = step-Steps v e k in
    let n = session-Steps es (step v e).0 m.kept in
    let w = (session step (step v e).0 es).0 in
    record {
      kept = n.kept;
      later = omega (arith, m.later, n.later);
      same = λ h.
          let now : (step v e).0.asked ≡ v.asked = omega (arith, m.later, n.later, h) in
          let then_ : w.asked ≡ (step v e).0.asked = h ∙ sym now in n.same then_ ∙ m.same now;
      sent =
          All-append (IsForRepo w) (step v e).1 (session step (step v e).0 es).1
            (All-kept (step v e).0 w n.later n.same (step v e).1 m.sent) n.sent;
    }

-- All that is asked for from the mount on, and the view at the end.
abbrev pub whole : RepoView × List Request → List Event → RepoView × List Request
whole m es = let r = session step m.0 es in (r.0, m.1 ++ r.1)

taken-repo :
    (v : RepoView) (n : ℕ) (r : Str) (t : Result (Option Nodes))
    → IsForRepo v (get_tree n r)
    → (step v (got_tree n t)).0.tree ≢ v.tree
    → r ≡ v.repo
unfolding step
taken-repo v n r t (b, h) changed = elim (Bool-cases (n == v.asked)) [
  | inl y ↦ h ((==_iff n v.asked).0 y)
  | inr f ↦ absurd (changed (rw f refl))
]

-- A write of the pins that the storage does not take.
abbrev pub IsLost : Event → Type 0
IsLost (pin_path path false) = Unit
IsLost _ = ⊥

with_repo-IsStored :
    (v : RepoView) (repo : Str) → IsStored v.pins → IsStored (with_repo v repo).0.pins
unfolding with_repo show_repo
with_repo-IsStored v repo h =
    if-case (λ (r : RepoView × List Request). IsStored r.0.pins) (eqs v.repo repo) _ _ (λ _. h)
      (λ _. refl)

pin_path-IsStored : (p : PinState) (path : Str) → IsStored (toggle_pin_file p path true)
unfolding toggle_pin_file load_pins
pin_path-IsStored p path = rw (eqs_refl p.repo) refl

resized-IsStored :
    (v : RepoView) (o : Option Grip) (x : ℤ) → IsStored v.pins → IsStored (resized v o x).pins
resized-IsStored v none x h = h
resized-IsStored v (some g) x h = h

step-IsStored : (v : RepoView) (e : Event) → IsStored v.pins → IsStored (step v e).0.pins ⊎ IsLost e
unfolding step
step-IsStored v (show repo file) h = inl (
    if-case (λ (w : RepoView). IsStored w.pins) (same_file (with_repo v repo).0.file file) _ _
      (λ _. with_repo-IsStored v repo h) (λ _. with_repo-IsStored v repo h))
step-IsStored v (pin_path path true) h = inl (pin_path-IsStored v.pins path)
step-IsStored v (pin_path path false) h = inr tt
step-IsStored v (got_tree n t) h =
    inl (if-case (λ (w : RepoView). IsStored w.pins) (n == v.asked) _ v (λ _. h) (λ _. h))
step-IsStored v (drag x) h = inl (resized-IsStored v v.grip x h)
step-IsStored v _ h = inl h

session-IsStored :
    (es : List Event) (v : RepoView)
    → IsStored v.pins
    → IsStored (session step v es).0.pins ⊎ ((e : Event) × In e es × IsLost e)
unfolding session
session-IsStored [] v h = inl h
session-IsStored (e ∷ es) v h = elim (step-IsStored v e h) [
  | inr lost ↦ inr (e, inl refl, lost)
  | inl kept ↦ elim (session-IsStored es (step v e).0 kept) [
    | inl end ↦ inl end
    | inr (d, i, lost) ↦ inr (d, inr i, lost)
  ]
]

-- In every session of the view from its mount on: the pins are of the repository that is shown, and they
-- are what the storage has for it, unless it did not take a write of the session; the tree has a width
-- from 180 to 420; and an answer that changes the tree is for the repository that is shown, whichever was
-- shown when it was asked for.
pub session-IsKept :
    (mock : Nodes) (pins : PinState) (seed : Meta) (repo : Str) (file : Option Str)
    (es : List Event)
    → IsKept (whole (mounted mock pins seed repo file) es).0
      × (((whole (mounted mock pins seed repo file) es).0.pins.pins
            ≡ load_pins
                (whole (mounted mock pins seed repo file) es).0.pins.store
                (whole (mounted mock pins seed repo file) es).0.repo)
          ⊎ ((e : Event) × In e es × IsLost e))
      × ((n : ℕ) (r : Str) (t : Result (Option Nodes))
          → In (get_tree n r) (whole (mounted mock pins seed repo file) es).1
          → (step (whole (mounted mock pins seed repo file) es).0 (got_tree n t)).0.tree
            ≢ (whole (mounted mock pins seed repo file) es).0.tree
          → r ≡ (whole (mounted mock pins seed repo file) es).0.repo)
unfolding show_repo
session-IsKept mock pins seed repo file es =
    let m = mounted mock pins seed repo file in
    let s = session-Steps es m.0 (refl, omega arith, omega arith) in
    let w = (session step m.0 es).0 in
    let first : All (IsForRepo m.0) m.1 = requests-IsForRepo m.0 0 repo refl refl in
    let all =
      All-append (IsForRepo w) m.1 (session step m.0 es).1 (All-kept m.0 w s.later s.same m.1 first)
        s.sent in
    (
      s.kept,
      elim (session-IsStored es m.0 refl) [
        | inl h ↦ inl (h ∙ ap (load_pins w.pins.store) s.kept.0)
        | inr l ↦ inr l
      ],
      λ n r t i changed.
          taken-repo w n r t
            (All-In (IsForRepo w) (m.1 ++ (session step m.0 es).1) (get_tree n r) all i) changed,
    )
