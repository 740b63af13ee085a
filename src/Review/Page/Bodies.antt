-- ===== src/Review/Page/Bodies.antt =====
-- The texts of the comments that are staged and posted.
use orchis_foundry.Prelude.{
  Bool, true, false, ◌||◌, Option, none, some, List, [], ◌∷◌, ◌≡◌, inl, inr, refl, arith,
  Bool-cases, Str, All, All-append, trim, trim_idem,
}
use orchis_foundry.Review.Diff.{Anchor, Staged, anchor_for}
use orchis_foundry.Review.State.{
  Page, Request, Event, Answer, mounted, stream_notified, answered, submit_review, submit_line,
  stage_line, submit_top, send_request, run_job, apply_draft, merge_click, stream_opened,
  open_review, open_line, open_request, merged, commented, requested, reviewed, patched, job_done,
  got_pull, got_scanner, post_review, post_comment,
}
use orchis_foundry.Review.Page.{
  step, run, answer, reload, given, is_blank, is_busy, submit_at, stage_at, staged_at,
}

-- The text of a staged comment has no blanks around it and is not empty.
abbrev pub IsWritten : Staged → Type 0
IsWritten c = (trim c.body ≡ c.body) × (is_blank c.body ≡ false)

-- A request that posts comments posts no blank one.
abbrev pub IsWorded : Request → Type 0
IsWorded (post_comment body extra) = is_blank body ≡ false
IsWorded (post_review v body cs) = All IsWritten cs
IsWorded _ = Unit

written :
    (path : Str) (a : Anchor) (body : Str)
    → is_blank body ≡ false
    → IsWritten (staged_at path a (trim body))
written path a body b = (trim_idem body, rw (trim_idem body) b)

IsWorded-reload : (base : Option Str) → All IsWorded (reload base)
IsWorded-reload none = tt
IsWorded-reload (some b) = (tt, (tt, (tt, (tt, (tt, tt)))))

IsWritten-submit_at :
    (base : Option Str) (p : Page) (path body : Str) (o : Option Anchor)
    → is_blank body ≡ false
    → All IsWritten p.pending
    → All IsWritten (submit_at base p path body o).0.pending
      × All IsWorded (submit_at base p path body o).1
IsWritten-submit_at base p path body none b h = (h, tt)
IsWritten-submit_at none p path body (some a) b h = (h, tt)
IsWritten-submit_at (some _) p path body (some a) b h = (h, (rw (trim_idem body) b, tt))

IsWorded-given :
    (base : Option Str) (p : Page)
    → All IsWritten p.pending
    → All IsWorded (given base [] (post_review p.review_verdict p.review_body p.pending ∷ []))
IsWorded-given none p h = tt
IsWorded-given (some b) p h = (h, tt)

IsWritten-stage_at :
    (p : Page) (path body : Str) (o : Option Anchor)
    → is_blank body ≡ false
    → All IsWritten p.pending
    → All IsWritten (stage_at none p path body o).pending
IsWritten-stage_at p path body none b h = h
IsWritten-stage_at p path body (some a) b h =
    All-append IsWritten p.pending _ h (written path a body b, tt)

IsWritten-answer :
    (base : Option Str) (p : Page) (a : Answer)
    → All IsWritten p.pending
    → All IsWritten (answer base p a).0.pending × All IsWorded (answer base p a).1
unfolding answer
IsWritten-answer base p (reviewed ok) h = (tt, IsWorded-reload base)
IsWritten-answer base p (merged true) h = (h, IsWorded-reload base)
IsWritten-answer base p (commented none ok) h = (h, IsWorded-reload base)
IsWritten-answer base p (commented (some path) ok) h = (h, IsWorded-reload base)
IsWritten-answer base p (requested true) h = (h, IsWorded-reload base)
IsWritten-answer base p (patched ok) h = (h, IsWorded-reload base)
IsWritten-answer base p (got_pull none) h = (h, tt)
IsWritten-answer base p (got_pull (some q)) h = (h, tt)
IsWritten-answer base p (got_scanner none) h = (h, tt)
IsWritten-answer base p (got_scanner (some c)) h = (h, tt)
IsWritten-answer base p (merged false) h = (h, tt)
IsWritten-answer base p (requested false) h = (h, tt)
IsWritten-answer base p (job_done j none) h = (h, tt)
IsWritten-answer base p (job_done j (some r)) h = (h, tt)
IsWritten-answer base p _ h = (h, tt)

or_false : (a b : Bool) → (a || b) ≡ false → a ≡ false
or_false true b h = cc
or_false false b h = refl

IsWritten-step :
    (base : Option Str) (p : Page) (e : Event)
    → All IsWritten p.pending
    → All IsWritten (step base p e).0.pending × All IsWorded (step base p e).1
unfolding step
IsWritten-step base p (answered a) h = IsWritten-answer base p a h
IsWritten-step base p mounted h =
    (h, All-append IsWorded (reload base) _ (IsWorded-reload base) (tt, tt))
IsWritten-step base p stream_notified h = (h, IsWorded-reload base)
IsWritten-step base p (submit_line path ln body) h = elim (Bool-cases (is_blank body)) [
  | inl t ↦ rw t (h, tt)
  | inr t ↦ rw t (IsWritten-submit_at base p path body (anchor_for ln) t h)
]
IsWritten-step base p (stage_line path ln body) h =
    elim (Bool-cases (is_blank body || is_busy p.busy path)) [
      | inl t ↦ rw t (h, tt)
      | inr t ↦ rw t (IsWritten-stage_at p path body (anchor_for ln) (or_false _ _ t) h, tt)
    ]
IsWritten-step base p merge_click h = (ground (arith, h), ground arith)
IsWritten-step base p submit_review h = elim (Bool-cases p.reviewing) [
  | inl t ↦ simp t (h, IsWorded-given base p h)
  | inr t ↦ simp t (h, tt)
]
IsWritten-step base p stream_opened h = (ground (arith, h), tt)
IsWritten-step base p open_review h = (ground (arith, h), tt)
IsWritten-step base p (open_line k) h = (ground (arith, h), tt)
IsWritten-step base p (submit_top body) h = (h, ground arith)
IsWritten-step base p open_request h = (ground (arith, h), tt)
IsWritten-step base p send_request h = (ground (arith, h), ground arith)
IsWritten-step base p (run_job j) h = (ground (arith, h), ground arith)
IsWritten-step base p apply_draft h = (h, ground arith)
IsWritten-step base p _ h = (h, tt)

-- Every comment that is staged has a text with no blanks around it, and whatever is posted, alone or in
-- a review, is a comment that is not blank.
pub run-IsWritten :
    (base : Option Str) (es : List Event) (p : Page)
    → All IsWritten p.pending
    → All IsWritten (run base p es).0.pending × All IsWorded (run base p es).1
unfolding run
run-IsWritten base [] p h = (h, tt)
run-IsWritten base (e ∷ es) p h =
    let (q, now) = IsWritten-step base p e h in
    let (last, later) = run-IsWritten base es (step base p e).0 q in
    (last, All-append IsWorded (step base p e).1 _ now later)
