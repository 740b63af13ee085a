-- ===== src/Review/State.antt =====
-- The state of `PRView` and of the comment boxes in it, the requests that the view makes, and what happens
-- at it: clicks, keys, and the answers to the requests.
use orchis_foundry.Prelude.{ℕ, Bool, false, Option, none, List, [], Str}
use orchis_foundry.Review.Diff.{DiffLine, Anchor, Posted, Staged, FileDiff}

-- The fields of a pull request that the view reads.
pub record Pull : Type 0 where
  pub id : ℕ
  pub repo : Str
  pub title : Str
  pub status : Str
  pub additions : ℕ
  pub deletions : ℕ
  pub description : Option Str

pub record Commit : Type 0 where
  pub sha : Str
  pub message : Str
  pub author : Str

pub record Check : Type 0 where
  pub name : Str
  pub status : Str
  pub detail : Str

pub data Tab : Type 0 where
  conversation files commits checks : Tab

pub data Verdict : Type 0 where
  comment approve changes : Verdict

-- `${fi}-${hi}-${li}`.
pub record LineKey : Type 0 where
  pub fi : ℕ
  pub hi : ℕ
  pub li : ℕ

-- The three requests to the model, by their paths.
pub data Job : Type 0 where
  summarize explain draft_description : Job

pub record AiResult : Type 0 where
  pub label : Str
  pub text : Str
  pub can_apply : Bool

-- `busy` holds the paths of the files whose `FileDiff` is posting; an empty `aiBusy` is `none`.
pub record Page : Type 0 where
  pub pull : Pull
  pub files : Option (List FileDiff)
  pub commits : Option (List Commit)
  pub checks : Option (List Check)
  pub comments : Option (List Posted)
  pub tab : Tab
  pub reviewing : Bool
  pub review_body : Str
  pub review_verdict : Verdict
  pub open_comment : Option LineKey
  pub live : Bool
  pub merging : Bool
  pub action_err : Str
  pub pending : List Staged
  pub req_open : Bool
  pub req_handle : Str
  pub req_err : Str
  pub model_ok : Bool
  pub ai_busy : Option Job
  pub ai_result : Option AiResult
  pub busy : List Str

-- The state at first, with the pull request of the mock data.
abbrev pub page_of : Pull → Page
page_of p = record {
  pull = p;
  files = none;
  commits = none;
  checks = none;
  comments = none;
  tab = files;
  reviewing = false;
  review_body = [];
  review_verdict = approve;
  open_comment = none;
  live = false;
  merging = false;
  action_err = [];
  pending = [];
  req_open = false;
  req_handle = [];
  req_err = [];
  model_ok = false;
  ai_busy = none;
  ai_result = none;
  busy = [];
}

-- What is asked of the server. A comment on a line names its file and anchor.
pub data Request : Type 0 where
  get_pull get_files get_commits get_checks get_comments get_scanner : Request
  post_merge : Str → Request
  post_review : Verdict → Str → List Staged → Request
  post_comment : Str → Option (Str × Anchor) → Request
  post_reviewer : Str → Request
  post_job : Job → Request
  patch_body : Str → Request

pub record Scanner : Type 0 where
  pub has_key : Bool
  pub base_url : Str

pub record AiReply : Type 0 where
  pub summary : Option Str
  pub explanation : Option Str
  pub description : Option Str

-- An answer; a request that failed has none, or `false`. That to a comment names the file whose
-- `FileDiff` posted it, if one did.
pub data Answer : Type 0 where
  got_pull : Option Pull → Answer
  got_files : Option (List FileDiff) → Answer
  got_commits : Option (List Commit) → Answer
  got_checks : Option (List Check) → Answer
  got_comments : Option (List Posted) → Answer
  got_scanner : Option Scanner → Answer
  merged : Bool → Answer
  reviewed : Bool → Answer
  commented : Option Str → Bool → Answer
  requested : Bool → Answer
  job_done : Job → Option AiReply → Answer
  patched : Bool → Answer

pub data Event : Type 0 where
  mounted stream_opened stream_broken stream_notified : Event
  answered : Answer → Event
  set_tab : Tab → Event
  merge_click : Event
  open_review cancel_review submit_review : Event
  set_body : Str → Event
  set_verdict : Verdict → Event
  open_line : LineKey → Event
  close_line : Event
  submit_line : Str → DiffLine → Str → Event
  stage_line : Str → DiffLine → Str → Event
  submit_top : Str → Event
  open_request close_request send_request : Event
  set_handle : Str → Event
  run_job : Job → Event
  apply_draft dismiss_job : Event
