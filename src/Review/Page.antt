-- ===== src/Review/Page.antt =====
-- `PRView`, with the comment boxes of `FileDiff` and `Conversation`. `step` is one event at the view: a
-- click, a key, or the answer to a request, with the new state and the requests that are made. A
-- handler that awaits an answer is two events, and an answer says whose it is. `base` is the URL of the
-- pull request, missing without a repository. `window.OrchisAPI` is always there (data.jsx).
pub mod Lost
pub mod Merges
pub mod Bodies
use orchis_foundry.Prelude.{
  ℕ, Bool, true, false, not, ◌&&◌, ◌||◌, Option, none, some, List, [], ◌∷◌, ◌++◌, if◌then◌else◌,
  ◌==◌, Str, codes, eqs, trim, filter,
}
use orchis_foundry.Review.Diff.{DiffLine, Anchor, Posted, Staged, FileDiff, anchor_for}
use orchis_foundry.Review.State.{
  AiReply, AiResult, Answer, Check, Commit, Event, Job, LineKey, Page, Pull, Request, Scanner, Tab,
  Verdict, answered, apply_draft, approve, cancel_review, changes, checks, close_line,
  close_request, comment, commented, commits, conversation, dismiss_job, draft_description, explain,
  files, get_checks, get_comments, get_commits, get_files, get_pull, get_scanner, got_checks,
  got_comments, got_commits, got_files, got_pull, got_scanner, job_done, merge_click, merged,
  mounted, open_line, open_request, open_review, page_of, patch_body, patched, post_comment,
  post_job, post_merge, post_review, post_reviewer, requested, reviewed, run_job, send_request,
  set_body, set_handle, set_tab, set_verdict, stage_line, stream_broken, stream_notified,
  stream_opened, submit_line, submit_review, submit_top, summarize,
}

abbrev job_path : Job → Str
job_path summarize = codes "summarize"
job_path explain = codes "explain"
job_path draft_description = codes "draft-description"

abbrev job_label : Job → Str
job_label summarize = codes "Summary"
job_label explain = codes "Explanation"
job_label draft_description = codes "Drafted description"

abbrev job_applies : Job → Bool
job_applies draft_description = true
job_applies _ = false

abbrev merge_failed : Str
merge_failed = codes "Merge failed — likely a conflict, or you're not the repo owner."

abbrev request_failed : Str
request_failed =
    codes "Couldn't request — check the handle exists and you own the repo or authored the PR."

abbrev job_failed : Str
job_failed =
    codes "_Could not run. Make sure your model is configured in Developer settings → Scanner._"

-- `a || b` on texts.
unfoldable or_else : Option Str → Str → Str
unfolding eqs
or_else none t = t
or_else (some s) t = if eqs s [] then t else s

abbrev reply_text : AiReply → Str
reply_text r = or_else r.summary (or_else r.explanation (or_else r.description []))

abbrev pub or_nil {ℓ} : {A : Type ℓ} → Option (List A) → List A
or_nil none = []
or_nil (some l) = l

abbrev pub is_blank : Str → Bool
is_blank s = eqs (trim s) []

abbrev is_merged : Page → Bool
is_merged p = eqs p.pull.status (codes "merged")

abbrev pub is_busy : List Str → Str → Bool
is_busy [] path = false
is_busy (b ∷ bs) path = eqs b path || is_busy bs path

-- `setBusy(false)` of one `FileDiff`.
abbrev not_busy : List Str → Str → List Str
not_busy bs path = filter (λ b. not (eqs b path)) bs

abbrev pub is_idle : Option Job → Bool
is_idle none = true
is_idle (some j) = false

abbrev pub staged_at : Str → Anchor → Str → Staged
staged_at path a body = record { path = path; line = a.line; side = a.side; body = body }

abbrev base_text : Option Str → Str
base_text none = codes "null"
base_text (some b) = b

-- The URL of a request.
unfoldable pub url : Option Str → Request → Str
url base get_pull = base_text base
url base get_files = base_text base ++ codes "/files"
url base get_commits = base_text base ++ codes "/commits"
url base get_checks = base_text base ++ codes "/checks"
url base get_comments = base_text base ++ codes "/comments"
url base get_scanner = codes "/v1/me/scanner"
url base (post_merge s) = base_text base ++ codes "/merge"
url base (post_review v b cs) = base_text base ++ codes "/reviews"
url base (post_comment b e) = base_text base ++ codes "/comments"
url base (post_reviewer h) = base_text base ++ codes "/request-review"
url base (post_job j) = base_text base ++ (codes "/" ++ job_path j)
url base (patch_body b) = base_text base

module _ (base : Option Str) where
  -- A handler that returns at once where there is no `base`.
  abbrev pub given {ℓ} : {A : Type ℓ} → A → A → A
  given without here = elim base [ none ↦ without | some b ↦ here ]

  abbrev pub reload : List Request
  reload = given [] (get_pull ∷ get_files ∷ get_commits ∷ get_checks ∷ get_comments ∷ [])

  -- `if (from) …`: the rest of `submitComment`, where the comment is that of a `FileDiff`.
  abbrev line_posted : Page → Option Str → Page
  line_posted p none = p
  line_posted p (some path) = record p { open_comment = none; busy = not_busy p.busy path }

  unfoldable pub answer : Page → Answer → Page × List Request
  unfolding or_else eqs
  answer p (got_pull none) = (p, [])
  answer p (got_pull (some q)) = (record p { pull = q }, [])
  answer p (got_files o) = (record p { files = some (or_nil o) }, [])
  answer p (got_commits o) = (record p { commits = some (or_nil o) }, [])
  answer p (got_checks o) = (record p { checks = some (or_nil o) }, [])
  answer p (got_comments o) = (record p { comments = some (or_nil o) }, [])
  answer p (got_scanner none) = (p, [])
  answer p (got_scanner (some c)) =
      (record p { model_ok = c.has_key || not (eqs c.base_url []) }, [])
  answer p (merged true) = (record p { merging = false }, reload)
  answer p (merged false) = (record p { merging = false; action_err = merge_failed }, [])
  answer p (reviewed ok) = (record p { pending = [] }, reload)
  answer p (commented from ok) = (line_posted p from, reload)
  answer p (requested true) = (record p { req_handle = []; req_open = false }, reload)
  answer p (requested false) = (record p { req_err = request_failed }, [])
  answer p (job_done j none) = (
    record p {
      ai_busy = none;
      ai_result = some (record { label = job_label j; text = job_failed; can_apply = false });
    },
    [],
  )
  answer p (job_done j (some r)) = (
    record p {
      ai_busy = none;
      ai_result =
          some (record { label = job_label j; text = reply_text r; can_apply = job_applies j });
    },
    [],
  )
  answer p (patched ok) = (record p { ai_result = none }, reload)

  -- `submitComment` and `stageComment`, behind the test of `NewCommentBox`.
  abbrev pub submit_at : Page → Str → Str → Option Anchor → Page × List Request
  submit_at p path body none = (record p { open_comment = none }, [])
  submit_at p path body (some a) =
      given (record p { open_comment = none }, [])
        (record p { busy = path ∷ p.busy }, post_comment (trim body) (some (path, a)) ∷ [])

  abbrev pub stage_at : Page → Str → Str → Option Anchor → Page
  stage_at p path body none = record p { open_comment = none }
  stage_at p path body (some a) = record p {
    pending = p.pending ++ staged_at path a (trim body) ∷ [];
    reviewing = true;
    open_comment = none;
  }

  abbrev pub apply_result : Option AiResult → List Request
  apply_result none = []
  apply_result (some r) = if r.can_apply then patch_body r.text ∷ [] else []

  unfoldable pub step : Page → Event → Page × List Request
  unfolding answer anchor_for trim eqs
  step p mounted = (p, reload ++ get_scanner ∷ [])
  step p stream_opened = (given p (record p { live = true }), [])
  step p stream_broken = (record p { live = false }, [])
  step p stream_notified = (p, reload)
  step p (answered a) = answer p a
  step p (set_tab t) = (record p { tab = t }, [])
  step p merge_click =
      (if is_merged p || p.merging
        then (p, [])
        else (record p { action_err = []; merging = true }, post_merge (codes "merge") ∷ []))
  step p open_review = (if is_merged p then p else record p { reviewing = true }, [])
  step p cancel_review = (record p { reviewing = false }, [])
  step p submit_review =
      (if p.reviewing
        then (
          record p { reviewing = false; review_body = [] },
          given [] (post_review p.review_verdict p.review_body p.pending ∷ []),
        )
        else (p, []))
  step p (set_body s) = (record p { review_body = s }, [])
  step p (set_verdict v) = (record p { review_verdict = v }, [])
  step p (open_line k) = (given p (record p { open_comment = some k }), [])
  step p close_line = (record p { open_comment = none }, [])
  step p (submit_line path ln body) =
      (if is_blank body then (p, []) else submit_at p path body (anchor_for ln))
  step p (stage_line path ln body) =
      (if is_blank body || is_busy p.busy path then p else stage_at p path body (anchor_for ln), [])
  step p (submit_top body) =
      (p, if is_blank body then [] else given [] (post_comment body none ∷ []))
  step p open_request = (if is_merged p then p else record p { req_open = true }, [])
  step p close_request = (record p { req_open = false; req_err = [] }, [])
  step p (set_handle h) = (record p { req_handle = h }, [])
  step p send_request =
      (if is_blank p.req_handle
        then (p, [])
        else given (p, []) (record p { req_err = [] }, post_reviewer (trim p.req_handle) ∷ []))
  step p (run_job j) =
      (if p.model_ok && is_idle p.ai_busy
        then given (p, []) (record p { ai_busy = some j; ai_result = none }, post_job j ∷ [])
        else (p, []))
  step p apply_draft = (p, apply_result p.ai_result)
  step p dismiss_job = (record p { ai_result = none }, [])

  -- A session: the last state, and the requests in order.
  unfoldable pub run : Page → List Event → Page × List Request
  unfolding step
  run p [] = (p, [])
  run p (e ∷ es) = let r = step p e in let rest = run r.0 es in (rest.0, r.1 ++ rest.1)
