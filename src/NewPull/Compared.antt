-- ===== src/NewPull/Compared.antt =====
-- That the comparison which is taken is the one of what is selected, and who writes the title.
use orchis_foundry.Prelude.{
  ℕ, suc, ◌≤◌, Bool, true, false, not, ◌&&◌, ◌||◌, Option, none, some, List, [], ◌∷◌, ◌++◌,
  if◌then◌else◌, if-case, and_both, ◌==◌, ==_iff, ◌≡◌, ◌∙◌, refl, sym, arith, All, All-append,
  All-In, In, session, Str, eqs, eqs_iff, trim,
}
use orchis_foundry.Api.{Result, done, failed}
use orchis_foundry.NewPull.{
  Pair, NewPull, Request, get_repos, get_branches, get_compare, post_pull, post_review, go_pull,
  Event, pick_repo, pick_base, pick_head, type_title, type_body, type_reviewer, create, repos_got,
  branches_got, compared, created, reviewed, can_compare, compare_effect, repo_effects, mounted,
  settled, picked, shows_form, takes, took, create_step, opened, with_base, branched, default_of,
  or_nil, new_pull, has_pair, step, Comparison,
}

abbrev pub selection : NewPull → Pair
selection s = record { repo = s.repo; base = s.base; head = s.head }

-- What is asked for is what is selected; where nothing is, no comparison is shown.
abbrev IsPair : NewPull → Option Pair → Type 0
IsPair s none = (s.cmp ≡ none) × (can_compare s.repo s.base s.head ≡ false)
IsPair s (some p) = (p ≡ selection s) × (can_compare s.repo s.base s.head ≡ true)

abbrev IsCurrent : NewPull → Type 0
IsCurrent s = IsPair s s.pair

-- Of a request, and the state in which its answer may come: it is for what is selected where its answer
-- will be taken.
abbrev IsFor : NewPull → Request → Type 0
IsFor s (get_compare n p) = (n ≤ s.asked) × (n ≡ s.asked → s.pair ≡ some p)
IsFor s _ = Unit

-- A step that keeps the selection, or asks anew.
record Moves (s : NewPull) (r : NewPull × List Request) : Type 0 where
  current : IsCurrent r.0
  later : s.asked ≤ r.0.asked
  same : r.0.asked ≡ s.asked → r.0.pair ≡ s.pair
  sent : All (IsFor r.0) r.1

effect-Moves : (s t : NewPull) → t.asked ≡ s.asked → Moves s (compare_effect t)
unfolding compare_effect
effect-Moves s t a =
    if-case (Moves s) (can_compare t.repo t.base t.head) _ _
      (λ y. record {
        current = (refl, y);
        later = omega (arith, a);
        same = λ e. absurd (ahead e);
        sent = ((omega arith, λ _. refl), tt);
      })
      (λ f. record {
        current = (refl, f);
        later = omega (arith, a);
        same = λ e. absurd (ahead e);
        sent = tt;
      })
  where
    ahead : suc t.asked ≡ s.asked → ⊥
    ahead e = omega (arith, e, a)

-- The parts that no event but an effect changes.
record Alike (s t : NewPull) : Type 0 where
  asked : t.asked ≡ s.asked
  pair : t.pair ≡ s.pair
  cmp : t.cmp ≡ s.cmp

IsPair-alike :
    (s t : NewPull) (o : Option Pair)
    → s.repo ≡ t.repo
    → s.base ≡ t.base
    → s.head ≡ t.head
    → t.cmp ≡ s.cmp
    → IsPair s o
    → IsPair t o
IsPair-alike s t none r b h c (n, f) = (c ∙ n, rw⁻¹ (r, b, h) f)
IsPair-alike s t (some p) r b h c (e, y) = (rw⁻¹ (r, b, h) e, rw⁻¹ (r, b, h) y)

settled-Moves : (s t : NewPull) → IsCurrent s → Alike s t → Moves s (settled s t)
unfolding settled
settled-Moves s t h a =
    if-case (Moves s) (eqs s.repo t.repo && eqs s.base t.base && eqs s.head t.head) _ _
      (λ y.
        let (rb, e) = and_both (eqs s.repo t.repo && eqs s.base t.base) (eqs s.head t.head) y in
        let (r, b) = and_both (eqs s.repo t.repo) (eqs s.base t.base) rb in
        let k : IsPair t s.pair =
          IsPair-alike s t s.pair ((eqs_iff s.repo t.repo).0 r) ((eqs_iff s.base t.base).0 b)
            ((eqs_iff s.head t.head).0 e) a.cmp h in
        record {
          current = simp a.pair k;
          later = omega (arith, a.asked);
          same = λ _. a.pair;
          sent = tt;
        })
      (λ _. effect-Moves s t a.asked)

stays :
    (s t : NewPull)
    → IsCurrent s
    → Alike s t
    → s.repo ≡ t.repo
    → s.base ≡ t.base
    → s.head ≡ t.head
    → (rs : List Request) → All (IsFor t) rs
    → Moves s (t, rs)
stays s t h a r b k rs sent = record {
  current = simp a.pair (IsPair-alike s t s.pair r b k a.cmp h);
  later = omega (arith, a.asked);
  same = λ _. a.pair;
  sent = sent;
}

-- An event that touches neither the selection nor the comparison.
quiet : (s : NewPull) → Alike s s
quiet s = record { asked = refl; pair = refl; cmp = refl }

idle : (s : NewPull) → IsCurrent s → Moves s (s, [])
idle s h = stays s s h (quiet s) refl refl refl [] tt

with_base-Alike : (s t : NewPull) (o : Option Str) → Alike s t → Alike s (with_base t o)
with_base-Alike s t none a = a
with_base-Alike s t (some b) a = record { asked = a.asked; pair = a.pair; cmp = a.cmp }

effects-IsFor :
    (t : NewPull) (b : Bool) (r : Str) → All (IsFor t) (if b then [] else repo_effects r)
unfolding repo_effects
effects-IsFor t true r = tt
effects-IsFor t false r =
    if-case (All (IsFor t)) (eqs r []) (get_repos ∷ []) (get_branches r ∷ []) (λ _. (tt, tt))
      (λ _. (tt, tt))

picked-Moves : (s : NewPull) (r : Str) → IsCurrent s → Moves s (picked s r)
unfolding picked
picked-Moves s r h =
    let t = record s { repo = r; base = []; head = [] } in
    let m = settled-Moves s t h (record { asked = refl; pair = refl; cmp = refl }) in
    record {
      current = m.current;
      later = m.later;
      same = m.same;
      sent =
          All-append (IsFor (settled s t).0) (if eqs s.repo r then [] else repo_effects r)
            (settled s t).1 (effects-IsFor (settled s t).0 (eqs s.repo r) r) m.sent;
    }

-- A comparison that is taken replaces the one that is shown.
IsPair-some :
    (s t : NewPull) (o : Option Pair)
    → has_pair o ≡ true
    → s.repo ≡ t.repo
    → s.base ≡ t.base
    → s.head ≡ t.head
    → IsPair s o
    → IsPair t o
IsPair-some s t none n r b h k = cc n
IsPair-some s t (some p) n r b h (e, y) = (rw⁻¹ (r, b, h) e, rw⁻¹ (r, b, h) y)

takes-has_pair : (s : NewPull) (n : ℕ) → takes s n ≡ true → has_pair s.pair ≡ true
unfolding takes
takes-has_pair s n t = (and_both (n == s.asked) (has_pair s.pair) t).1

took-Moves :
    (s : NewPull) (r : Result Comparison)
    → has_pair s.pair ≡ true
    → IsCurrent s
    → Moves s (took s r, [])
unfolding took
took-Moves s (done c) n h = record {
  current = IsPair-some s (took s (done c)) s.pair n refl refl refl h;
  later = omega arith;
  same = λ _. refl;
  sent = tt;
}
took-Moves s (failed e) n h = record {
  current = IsPair-some s (took s (failed e)) s.pair n refl refl refl h;
  later = omega arith;
  same = λ _. refl;
  sent = tt;
}

opened-IsFor : (t : NewPull) (r v i : Str) → All (IsFor t) (opened r v i)
unfolding opened
opened-IsFor t r v i =
    if-case (All (IsFor t)) (eqs (trim v) []) (go_pull i r ∷ []) (post_review r i (trim v) ∷ [])
      (λ _. (tt, tt)) (λ _. (tt, tt))

create-Moves : (s : NewPull) → IsCurrent s → Moves s (create_step s)
unfolding create_step
create-Moves s h =
    if-case (Moves s) (shows_form s && not (s.busy || eqs (trim s.title) [])) _ _
      (λ _.
        stays s _ h (record { asked = refl; pair = refl; cmp = refl }) refl refl refl _ (tt, tt))
      (λ _. idle s h)

-- A field that is there with the form.
typed-Moves :
    (s t : NewPull) → IsCurrent s → Moves s (t, []) → Moves s (if shows_form s then t else s, [])
typed-Moves s t h m = if-case (λ u. Moves s (u, [])) (shows_form s) t s (λ _. m) (λ _. idle s h)

step-Moves : (first : Str) (s : NewPull) (e : Event) → IsCurrent s → Moves s (step first s e)
unfolding step
step-Moves first s (pick_repo r) h =
    if-case (Moves s) (eqs first []) _ _ (λ _. picked-Moves s r h) (λ _. idle s h)
step-Moves first s (pick_base b) h =
    if-case (Moves s) (eqs s.repo []) _ _ (λ _. idle s h)
      (λ _. settled-Moves s _ h (record { asked = refl; pair = refl; cmp = refl }))
step-Moves first s (pick_head b) h =
    if-case (Moves s) (eqs s.repo []) _ _ (λ _. idle s h)
      (λ _. settled-Moves s _ h (record { asked = refl; pair = refl; cmp = refl }))
step-Moves first s (type_title t) h =
    typed-Moves s _ h
      (stays s _ h (record { asked = refl; pair = refl; cmp = refl }) refl refl refl [] tt)
step-Moves first s (type_body t) h =
    typed-Moves s _ h
      (stays s _ h (record { asked = refl; pair = refl; cmp = refl }) refl refl refl [] tt)
step-Moves first s (type_reviewer t) h =
    typed-Moves s _ h
      (stays s _ h (record { asked = refl; pair = refl; cmp = refl }) refl refl refl [] tt)
step-Moves first s create h = create-Moves s h
step-Moves first s (repos_got (done o)) h =
    stays s _ h (record { asked = refl; pair = refl; cmp = refl }) refl refl refl [] tt
step-Moves first s (repos_got (failed e)) h = idle s h
step-Moves first s (branches_got r (done o)) h = settled-Moves s (branched s (or_nil o)) h (
    with_base-Alike s (record s { branches = or_nil o }) (default_of (or_nil o))
      (record { asked = refl; pair = refl; cmp = refl }))
step-Moves first s (branches_got r (failed e)) h = idle s h
step-Moves first s (compared n r) h =
    if-case (λ u. Moves s (u, [])) (takes s n) (took s r) s
      (λ t. took-Moves s r (takes-has_pair s n t) h) (λ _. idle s h)
step-Moves first s (created r v (done i)) h =
    stays s s h (quiet s) refl refl refl (opened r v i) (opened-IsFor s r v i)
step-Moves first s (created r v (failed e)) h =
    stays s _ h (record { asked = refl; pair = refl; cmp = refl }) refl refl refl [] tt
step-Moves first s (reviewed r i) h = stays s s h (quiet s) refl refl refl _ (tt, tt)

-- An answer that may still be taken is for what was asked for last.
kept :
    (s t : NewPull)
    → s.asked ≤ t.asked
    → (t.asked ≡ s.asked → t.pair ≡ s.pair)
    → (r : Request) → IsFor s r
    → IsFor t r
kept s t l e (get_compare n p) (m, f) = (
  omega (arith, l, m),
  λ q. let here : t.asked ≡ s.asked = omega (arith, l, m, q) in e here ∙ f (q ∙ here),
)
kept s t l e get_repos h = tt
kept s t l e (get_branches r) h = tt
kept s t l e (post_pull a b c d f) h = tt
kept s t l e (post_review a b c) h = tt
kept s t l e (go_pull a b) h = tt

All-kept :
    (s t : NewPull)
    → s.asked ≤ t.asked
    → (t.asked ≡ s.asked → t.pair ≡ s.pair)
    → (rs : List Request) → All (IsFor s) rs
    → All (IsFor t) rs
All-kept s t l e [] h = tt
All-kept s t l e (r ∷ rs) (now, h) = (kept s t l e r now, All-kept s t l e rs h)

session-Moves :
    (first : Str) (es : List Event) (s : NewPull)
    → IsCurrent s
    → Moves s (session (step first) s es)
unfolding session
session-Moves first [] s h = idle s h
session-Moves first (e ∷ es) s h =
    let m = step-Moves first s e h in
    let t = (step first s e).0 in
    let n = session-Moves first es t m.current in
    let u = (session (step first) t es).0 in
    record {
      current = n.current;
      later = omega (arith, m.later, n.later);
      same = λ q.
          let here : u.asked ≡ t.asked = omega (arith, m.later, n.later, q) in
          n.same here ∙ m.same (sym here ∙ q);
      sent =
          All-append (IsFor u) (step first s e).1 (session (step first) t es).1
            (All-kept t u n.later n.same (step first s e).1 m.sent) n.sent;
    }

mounted-Moves :
    (repo head : Str)
    → IsCurrent (mounted repo head).0 × All (IsFor (mounted repo head).0) (mounted repo head).1
unfolding mounted
mounted-Moves repo head =
    let b = new_pull repo head in
    let m = effect-Moves b b refl in
    (
      m.current,
      All-append (IsFor (compare_effect b).0) (repo_effects repo) (compare_effect b).1
          (effects-IsFor (compare_effect b).0 false repo) m.sent,
    )

taken-current :
    (s : NewPull) (n : ℕ) (p : Pair)
    → IsCurrent s
    → IsFor s (get_compare n p)
    → takes s n ≡ true
    → p ≡ selection s
unfolding takes
taken-current s n p h (l, f) t =
    let here : s.pair ≡ some p =
      f ((==_iff n s.asked).0 (and_both (n == s.asked) (has_pair s.pair) t).0) in
    let k : IsPair s (some p) = rw here at h in k.0

-- A comparison that is taken is of the repository and the branches that are selected: in every session,
-- whatever was asked for since the view was mounted, the request whose answer would be taken now is that
-- for what is selected now.
pub session-compared :
    (first head : Str) (es : List Event) (n : ℕ) (p : Pair)
    → In
        (get_compare n p)
        ((mounted first head).1 ++ (session (step first) (mounted first head).0 es).1)
    → takes (session (step first) (mounted first head).0 es).0 n ≡ true
    → p ≡ selection (session (step first) (mounted first head).0 es).0
session-compared first head es n p i t =
    let (current, sent) = mounted-Moves first head in
    let m = session-Moves first es (mounted first head).0 current in
    let f = (session (step first) (mounted first head).0 es).0 in
    let all =
      All-append (IsFor f) (mounted first head).1 (session (step first) (mounted first head).0 es).1
        (All-kept (mounted first head).0 f m.later m.same (mounted first head).1 sent) m.sent in
    taken-current f n p m.current (All-In (IsFor f) _ (get_compare n p) all i) t
