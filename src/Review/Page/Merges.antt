-- ===== src/Review/Page/Merges.antt =====
-- The requests that must not overlap: merges, and the jobs of the model.
use orchis_foundry.Prelude.{
  ℕ, suc, ◌+◌, ◌≤◌, Option, List, [], ◌∷◌, ◌++◌, if◌then◌else◌, ◌≡◌, arith, Str,
}
use orchis_foundry.Review.State.{
  Page, Request, Event, answered, merged, job_done, post_merge, post_job,
}
use orchis_foundry.Review.Page.{step, run, answer, is_idle}

abbrev pub merges : List Request → ℕ
merges [] = 0
merges (post_merge s ∷ rs) = suc (merges rs)
merges (_ ∷ rs) = merges rs

abbrev jobs : List Request → ℕ
jobs [] = 0
jobs (post_job j ∷ rs) = suc (jobs rs)
jobs (_ ∷ rs) = jobs rs

abbrev pub merge_answers : List Event → ℕ
merge_answers [] = 0
merge_answers (answered (merged ok) ∷ es) = suc (merge_answers es)
merge_answers (_ ∷ es) = merge_answers es

abbrev job_answers : List Event → ℕ
job_answers [] = 0
job_answers (answered (job_done j r) ∷ es) = suc (job_answers es)
job_answers (_ ∷ es) = job_answers es

abbrev pub merge_waits : Page → ℕ
merge_waits p = if p.merging then 1 else 0

abbrev job_waits : Page → ℕ
job_waits p = if is_idle p.ai_busy then 0 else 1

-- One event, for both kinds.
record Bounded (e : Event) (p q : Page) (rs : List Request) : Type 0 where
  merge : merges rs + merge_waits p ≤ merge_answers (e ∷ []) + merge_waits q
  job : jobs rs + job_waits p ≤ job_answers (e ∷ []) + job_waits q

merges-append : (rs us : List Request) → merges (rs ++ us) ≡ merges rs + merges us
merges-append [] us = omega arith
merges-append (post_merge s ∷ rs) us = omega (arith, merges-append rs us)
merges-append (_ ∷ rs) us = merges-append rs us

jobs-append : (rs us : List Request) → jobs (rs ++ us) ≡ jobs rs + jobs us
jobs-append [] us = omega arith
jobs-append (post_job j ∷ rs) us = omega (arith, jobs-append rs us)
jobs-append (_ ∷ rs) us = jobs-append rs us

Bounded-step :
    (base : Option Str) (p : Page) (e : Event) → Bounded e p (step base p e).0 (step base p e).1
unfolding step answer
Bounded-step base p e = record { merge = ground arith; job = ground arith }

merge_answers-cons :
    (e : Event) (es : List Event)
    → merge_answers (e ∷ es) ≡ merge_answers (e ∷ []) + merge_answers es
merge_answers-cons e es = ground arith

job_answers-cons :
    (e : Event) (es : List Event) → job_answers (e ∷ es) ≡ job_answers (e ∷ []) + job_answers es
job_answers-cons e es = ground arith

module _ (base : Option Str) where
  -- At most one merge is under way: the merges that a session posts, with the one under way at its
  -- start, are no more than those that it sees answered, with the one under way at its end.
  pub run-merges :
      (es : List Event) (p : Page)
      → merges (run base p es).1 + merge_waits p ≤ merge_answers es + merge_waits (run base p es).0
  unfolding run
  run-merges [] p = omega arith
  run-merges (e ∷ es) p =
      let s = Bounded-step base p e in
      let q = (step base p e).0 in
      omega (
        arith,
        s.merge,
        run-merges es q,
        merge_answers-cons e es,
        merges-append (step base p e).1 (run base q es).1,
      )

  -- The same of the jobs of the model.
  run-jobs :
      (es : List Event) (p : Page)
      → jobs (run base p es).1 + job_waits p ≤ job_answers es + job_waits (run base p es).0
  unfolding run
  run-jobs [] p = omega arith
  run-jobs (e ∷ es) p =
      let s = Bounded-step base p e in
      let q = (step base p e).0 in
      omega (
        arith,
        s.job,
        run-jobs es q,
        job_answers-cons e es,
        jobs-append (step base p e).1 (run base q es).1,
      )
