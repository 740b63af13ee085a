-- ===== src/Repo/Proposals/Allowed.antt =====
-- Which proposals are accepted or rejected, by whom, and how many at a time.
use orchis_foundry.Prelude.{
  ℕ, ◌+◌, ◌≤◌, true, false, not, ◌&&◌, Option, none, some, List, [], ◌∷◌, if◌then◌else◌, if-case,
  and_both, not-true, Bool-cases, ◌≡◌, refl, ap, arith, All, In, total, session, session-waits, inl,
  inr, Str, codes, eqs, eqs_iff,
}
use orchis_foundry.Repo.Proposals.{
  Proposal, Proposals, Request, post_verb, Event, listed, toggle, act, accept_answered,
  reject_answered, open_pull, can_write, shown_proposals, is_unfolded, offers, pull_of,
  pull_requests, step,
}

-- A proposal that is listed and pending, unfolded, for a user who may write, with nothing under way.
abbrev pub IsPending : Str → Proposals → Request → Type 0
IsPending role s (post_verb i v) =
    ((p : Proposal) × In p (shown_proposals s) × (p.id ≡ i) × (p.status ≡ codes "pending"))
    × (s.opened ≡ some i)
    × (can_write role ≡ true)
    × (s.busy ≡ false)
IsPending role s _ = Unit

offers-In :
    (l : List Proposal) (i : Str)
    → offers l i ≡ true
    → (p : Proposal) × In p l × (p.id ≡ i) × (p.status ≡ codes "pending")
unfolding offers
offers-In [] i h = cc h
offers-In (p ∷ l) i h = elim (Bool-cases (eqs p.id i && eqs p.status (codes "pending"))) [
  | inl t ↦
      let (a, b) = and_both (eqs p.id i) (eqs p.status (codes "pending")) t in
      (p, inl refl, (eqs_iff p.id i).0 a, (eqs_iff p.status (codes "pending")).0 b)
  | inr f ↦ let (q, j, a, b) = offers-In l i (rw f at h) in (q, inr j, a, b)
]

open_some : (o : Option Str) (i : Str) → is_unfolded o i ≡ true → o ≡ some i
unfolding is_unfolded
open_some none i h = cc h
open_some (some j) i h = ap some ((eqs_iff j i).0 h)

pulls-IsPending :
    (role : Str) (s : Proposals) (o : Option Str) → All (IsPending role s) (pull_requests o)
pulls-IsPending role s none = tt
pulls-IsPending role s (some n) = (tt, tt)

module _ (role : Str) where
  -- Whatever happens, a proposal is accepted or rejected only where it is pending and shown to a user who
  -- may write.
  pub step-IsPending : (s : Proposals) (e : Event) → All (IsPending role s) (step role s e).1
  unfolding step
  step-IsPending s (act v i) =
      if-case (λ (r : Proposals × List Request). All (IsPending role s) r.1)
        (can_write role && offers (shown_proposals s) i && is_unfolded s.opened i && not s.busy) _
        (s, [])
        (λ t.
          let (t1, b) =
            and_both (can_write role && offers (shown_proposals s) i && is_unfolded s.opened i)
              (not s.busy) t in
          let (t2, u) =
            and_both (can_write role && offers (shown_proposals s) i) (is_unfolded s.opened i) t1 in
          let (w, o) = and_both (can_write role) (offers (shown_proposals s) i) t2 in
          ((offers-In (shown_proposals s) i o, open_some s.opened i u, w, not-true s.busy b), tt))
        (λ _. tt)
  step-IsPending s (listed r) = tt
  step-IsPending s (toggle i) = tt
  step-IsPending s (accept_answered (some a)) = (tt, tt)
  step-IsPending s (accept_answered none) = tt
  step-IsPending s (reject_answered true) = (tt, tt)
  step-IsPending s (reject_answered false) = tt
  step-IsPending s (open_pull i) =
      if-case (λ (r : Proposals × List Request). All (IsPending role s) r.1)
        (is_unfolded s.opened i) (s, pull_requests (pull_of (can_write role) (shown_proposals s) i))
        (s, []) (λ _. pulls-IsPending role s _) (λ _. tt)

unfoldable verbs : Request → ℕ
verbs (post_verb i v) = 1
verbs _ = 0

unfoldable pub answers : Event → ℕ
answers (accept_answered o) = 1
answers (reject_answered ok) = 1
answers _ = 0

unfoldable pub waits : Proposals → ℕ
waits s = if s.busy then 1 else 0

pulls_none : (o : Option Str) → total verbs (pull_requests o) ≡ 0
unfolding verbs
pulls_none none = refl
pulls_none (some n) = refl

step-waits :
    (role : Str) (s : Proposals) (e : Event)
    → total verbs (step role s e).1 + waits s ≤ answers e + waits (step role s e).0
unfolding step verbs answers waits
step-waits role s (open_pull i) =
    ground (arith, pulls_none (pull_of (can_write role) (shown_proposals s) i))
step-waits role s e = ground arith

-- One verdict at a time: those of a session, with the one under way at its start, are no more than the
-- answers that it sees, with the one under way at its end.
session-verdicts :
    (role : Str) (es : List Event) (s : Proposals)
    → total verbs (session (step role) s es).1 + waits s
      ≤ total answers es + waits (session (step role) s es).0
session-verdicts role es s = session-waits (step role) verbs answers waits (step-waits role) es s
