-- ===== src/Review/Page/Lost.antt =====
-- What becomes of the comments that are staged for a review.
use orchis_foundry.Prelude.{
  ℕ, suc, ◌+◌, ◌-◌, ◌≤◌, true, false, ◌||◌, Option, none, some, List, [], ◌∷◌, ◌++◌, append_assoc,
  append-nil, ◌≡◌, ◌⊎◌, inl, inr, refl, sym, ap, ◌∙◌, arith, Bool-cases, Str, In, In-append,
  In-append_left, In-append_right, trim,
}
use orchis_foundry.Review.Diff.{DiffLine, Anchor, Staged, anchor_for}
use orchis_foundry.Review.State.{
  Page, Request, Event, Answer, mounted, stream_opened, stream_notified, answered, merge_click,
  open_review, submit_review, open_line, submit_line, stage_line, submit_top, open_request,
  send_request, run_job, apply_draft, got_pull, got_scanner, merged, reviewed, commented, requested,
  job_done, patched, get_scanner, post_review, AiResult,
}
use orchis_foundry.Review.Page.{
  step, run, answer, reload, given, is_blank, is_busy, submit_at, stage_at, staged_at, apply_result,
}

-- The comments in the reviews that were posted.
abbrev pub sent : List Request → List Staged
sent [] = []
sent (post_review v b cs ∷ rs) = cs ++ sent rs
sent (_ ∷ rs) = sent rs

abbrev pub reviews : List Request → ℕ
reviews [] = 0
reviews (post_review v b cs ∷ rs) = suc (reviews rs)
reviews (_ ∷ rs) = reviews rs

-- The number of reviews under way behind an event, which was `n` before it.
abbrev under_way : ℕ → Event → ℕ
under_way n (answered (reviewed ok)) = n - 1
under_way n _ = n

-- An answer to a review comes while one is under way; nothing is staged meanwhile.
abbrev IsCalm : ℕ → Event → Type 0
IsCalm n (answered (reviewed ok)) = 1 ≤ n
IsCalm n (stage_line path ln body) = n ≡ 0
IsCalm n _ = Unit

-- What an event does to the staged comments.
data Fate (n : ℕ) (e : Event) (p q : Page) (rs : List Request) : Type 0 where
  keeps : q.pending ≡ p.pending → reviews rs ≡ 0 → under_way n e ≡ n → Fate n e p q rs
  posts : q.pending ≡ p.pending → sent rs ≡ p.pending → Fate n e p q rs
  clears : q.pending ≡ [] → 1 ≤ n → Fate n e p q rs
  adds :
      (c : Staged)
      → q.pending ≡ p.pending ++ c ∷ []
      → reviews rs ≡ 0
      → n ≡ 0
      → under_way n e ≡ n
      → Fate n e p q rs

reviews-reload : (base : Option Str) → reviews (reload base) ≡ 0
reviews-reload none = refl
reviews-reload (some b) = refl

module _ (base : Option Str) where
  -- The comments that were pending at some time of a session.
  abbrev pub held : Page → List Event → List Staged
  held p [] = p.pending
  held p (e ∷ es) = p.pending ++ held (step base p e).0 es

  abbrev pub IsCalmRun : ℕ → Page → List Event → Type 0
  IsCalmRun n p [] = Unit
  IsCalmRun n p (e ∷ es) =
      IsCalm n e × IsCalmRun (under_way n e + reviews (step base p e).1) (step base p e).0 es

  abbrev FateOf : ℕ → Page → Event → Type 0
  FateOf n p e = Fate n e p (step base p e).0 (step base p e).1

Fate-answer :
    (base : Option Str) (n : ℕ) (p : Page) (a : Answer)
    → IsCalm n (answered a)
    → Fate n (answered a) p (answer base p a).0 (answer base p a).1
unfolding answer
Fate-answer base n p (reviewed ok) h = clears refl h
Fate-answer base n p (got_pull none) h = keeps refl refl refl
Fate-answer base n p (got_pull (some q)) h = keeps refl refl refl
Fate-answer base n p (got_scanner none) h = keeps refl refl refl
Fate-answer base n p (got_scanner (some c)) h = keeps refl refl refl
Fate-answer base n p (merged true) h = keeps refl (reviews-reload base) refl
Fate-answer base n p (merged false) h = keeps refl refl refl
Fate-answer base n p (commented none ok) h = keeps refl (reviews-reload base) refl
Fate-answer base n p (commented (some path) ok) h = keeps refl (reviews-reload base) refl
Fate-answer base n p (requested true) h = keeps refl (reviews-reload base) refl
Fate-answer base n p (requested false) h = keeps refl refl refl
Fate-answer base n p (job_done j none) h = keeps refl refl refl
Fate-answer base n p (job_done j (some r)) h = keeps refl refl refl
Fate-answer base n p (patched ok) h = keeps refl (reviews-reload base) refl
Fate-answer base n p _ h = keeps refl refl refl

Fate-submit_at :
    (base : Option Str) (n : ℕ) (p : Page) (path : Str) (ln : DiffLine) (body : Str)
    (o : Option Anchor)
    → Fate n
        (submit_line path ln body)
        p
        (submit_at base p path body o).0
        (submit_at base p path body o).1
Fate-submit_at base n p path ln body none = keeps refl refl refl
Fate-submit_at none n p path ln body (some a) = keeps refl refl refl
Fate-submit_at (some b) n p path ln body (some a) = keeps refl refl refl

Fate-stage_at :
    (n : ℕ) (p : Page) (path : Str) (ln : DiffLine) (body : Str) (o : Option Anchor)
    → n ≡ 0
    → Fate n (stage_line path ln body) p (stage_at none p path body o) []
Fate-stage_at n p path ln body none h = keeps refl refl refl
Fate-stage_at n p path ln body (some a) h = adds (staged_at path a (trim body)) refl refl h refl

reviews-mounted : (base : Option Str) → reviews (reload base ++ get_scanner ∷ []) ≡ 0
reviews-mounted none = refl
reviews-mounted (some b) = refl

reviews-apply : (o : Option AiResult) → reviews (apply_result none o) ≡ 0
reviews-apply none = refl
reviews-apply (some r) = ground arith

Fate-given :
    (base : Option Str) (n : ℕ) (p : Page)
    → Fate n submit_review p
        (record p { reviewing = false; review_body = [] })
        (given base [] (post_review p.review_verdict p.review_body p.pending ∷ []))
Fate-given none n p = keeps refl refl refl
Fate-given (some b) n p = posts refl (append-nil _)

fate : (base : Option Str) (n : ℕ) (p : Page) (e : Event) → IsCalm n e → FateOf base n p e
unfolding step
fate base n p (answered a) h = Fate-answer base n p a h
fate base n p mounted h = keeps refl (reviews-mounted base) refl
fate base n p stream_notified h = keeps refl (reviews-reload base) refl
fate base n p merge_click h = keeps (ground arith) (ground arith) refl
fate base n p stream_opened h = keeps (ground arith) refl refl
fate base n p open_review h = keeps (ground arith) refl refl
fate base n p (open_line k) h = keeps (ground arith) refl refl
fate base n p (submit_top body) h = keeps refl (ground arith) refl
fate base n p open_request h = keeps (ground arith) refl refl
fate base n p send_request h = keeps (ground arith) (ground arith) refl
fate base n p (run_job j) h = keeps (ground arith) (ground arith) refl
fate base n p apply_draft h = keeps refl (reviews-apply p.ai_result) refl
fate base n p submit_review h = elim (Bool-cases p.reviewing) [
  | inl t ↦ simp t (Fate-given base n p)
  | inr t ↦ simp t (keeps refl refl refl)
]
fate base n p (submit_line path ln body) h = elim (Bool-cases (is_blank body)) [
  | inl t ↦ rw t (keeps refl refl refl)
  | inr t ↦ rw t (Fate-submit_at base n p path ln body (anchor_for ln))
]
fate base n p (stage_line path ln body) h =
    elim (Bool-cases (is_blank body || is_busy p.busy path)) [
      | inl t ↦ rw t (keeps refl refl refl)
      | inr t ↦ rw t (Fate-stage_at n p path ln body (anchor_for ln) h)
    ]
fate base n p _ h = keeps refl refl refl

sent-append : (rs us : List Request) → sent (rs ++ us) ≡ sent rs ++ sent us
sent-append [] us = refl
sent-append (post_review v b cs ∷ rs) us =
    ap (λ l. cs ++ l) (sent-append rs us) ∙ sym (append_assoc cs (sent rs) (sent us))
sent-append (_ ∷ rs) us = sent-append rs us

-- Pending, or in a review of those.
abbrev Safe : List Request → Page → Staged → Type 0
Safe log p c = In c p.pending ⊎ In c (sent log)

-- While a review is under way, what is pending has been posted.
abbrev Covered : ℕ → List Request → Page → Type 0
Covered n log p = 1 ≤ n → (c : Staged) → In c p.pending → In c (sent log)

In-log : (log rs : List Request) (c : Staged) → In c (sent log) → In c (sent (log ++ rs))
In-log log rs c h = rw (sent-append log rs) (In-append_left c (sent log) (sent rs) h)

Fate-Safe :
    (n : ℕ) (e : Event) (p q : Page) (log rs : List Request) (c : Staged)
    → Fate n e p q rs
    → Covered n log p
    → Safe log p c
    → Safe (log ++ rs) q c
Fate-Safe n e p q log rs c f cov (inr h) = inr (In-log log rs c h)
Fate-Safe n e p q log rs c (keeps k z u) cov (inl h) = inl (rw k h)
Fate-Safe n e p q log rs c (posts k s) cov (inl h) = inl (rw k h)
Fate-Safe n e p q log rs c (clears k o) cov (inl h) = inr (In-log log rs c (cov o c h))
Fate-Safe n e p q log rs c (adds d k z o u) cov (inl h) =
    inl (rw k (In-append_left c p.pending _ h))

Fate-Covered :
    (n : ℕ) (e : Event) (p q : Page) (log rs : List Request)
    → Fate n e p q rs
    → Covered n log p
    → Covered (under_way n e + reviews rs) (log ++ rs) q
Fate-Covered n e p q log rs (keeps k z u) cov o c h =
    In-log log rs c (cov (omega (arith, o, z, u)) c (rw k at h))
Fate-Covered n e p q log rs (posts k s) cov o c h =
    rw (sent-append log rs, s) (In-append_right c (sent log) p.pending (rw k at h))
Fate-Covered n e p q log rs (clears k b) cov o c h = absurd (rw k at h).lower
Fate-Covered n e p q log rs (adds d k z b u) cov o c h = absurd (omega (arith, o, z, b, u))

module _ (base : Option Str) where
  run-Safe :
      (es : List Event) (n : ℕ) (p : Page) (log : List Request) (c : Staged)
      → IsCalmRun base n p es
      → Covered n log p
      → Safe log p c
      → Safe (log ++ (run base p es).1) (run base p es).0 c
  unfolding run
  run-Safe [] n p log c calm cov h = rw (append-nil log) h
  run-Safe (e ∷ es) n p log c (q, calm) cov h =
      let f = fate base n p e q in
      rw⁻¹ (append_assoc log (step base p e).1 (run base (step base p e).0 es).1) (
        run-Safe es (under_way n e + reviews (step base p e).1) (step base p e).0
          (log ++ (step base p e).1) c calm (Fate-Covered n e p _ log _ f cov)
          (Fate-Safe n e p _ log _ c f cov h))

  held-Safe :
      (es : List Event) (n : ℕ) (p : Page) (log : List Request) (c : Staged)
      → IsCalmRun base n p es
      → Covered n log p
      → In c (held base p es)
      → Safe (log ++ (run base p es).1) (run base p es).0 c
  unfolding run
  held-Safe [] n p log c calm cov h = rw (append-nil log) (inl h)
  held-Safe (e ∷ es) n p log c (q, calm) cov h = elim (In-append c p.pending _ h) [
    | inl now ↦ run-Safe (e ∷ es) n p log c (q, calm) cov (inl now)
    | inr later ↦ rw⁻¹ (append_assoc log (step base p e).1 (run base (step base p e).0 es).1) (
        held-Safe es (under_way n e + reviews (step base p e).1) (step base p e).0
          (log ++ (step base p e).1) c calm (Fate-Covered n e p _ log _ (fate base n p e q) cov)
          later)
  ]

-- In a session that begins with no review under way, and in which nothing is staged between a review
-- and its answer, each comment that was pending at some time is in the end still pending or in a review
-- that was posted.
pub held-Posted :
    (base : Option Str) (p : Page) (es : List Event) (c : Staged)
    → IsCalmRun base 0 p es
    → In c (held base p es)
    → In c (run base p es).0.pending ⊎ In c (sent (run base p es).1)
held-Posted base p es c calm h = held-Safe base es 0 p [] c calm (λ o. absurd (omega (arith, o))) h
