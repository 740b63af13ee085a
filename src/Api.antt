-- ===== src/Api.antt =====
-- `OrchisAPI` and `loadRepos` of web/src/data.jsx: how the answer of the server, or its absence, becomes
-- the value or the error that the views see.
pub mod Errors
use orchis_foundry.Prelude.{
  ℕ, ◌+◌, ◌/◌, ◌%◌, Bool, true, false, not, ◌&&◌, ◌||◌, Option, none, some, List, [], ◌∷◌, ◌++◌,
  if◌then◌else◌, leb, ltb, ◌==◌, Str, codes, eqs, starts_with, drop, length,
}

-- How an awaited call ends: with a value, or with an error of this message.
pub data Result {ℓ} (A : Type ℓ) : Type ℓ where
  done : A → Result A
  failed : Str → Result A

-- What a handler catches.
abbrev pub caught {ℓ} : {A : Type ℓ} → Result A → Option Str
caught (done a) = none
caught (failed e) = some e

-- An answer of the server, with the header `content-length` where it is sent. `body` is how `r.json()`
-- ends.
pub record Response {ℓ} (A : Type ℓ) : Type ℓ where
  pub status : ℕ
  pub content_length : Option Str
  pub body : Result A

-- What `fetch` gives: its error where the server is not reached, or the answer.
pub data Fetched {ℓ} (A : Type ℓ) : Type ℓ where
  unreachable : Str → Fetched A
  answer : Response A → Fetched A

-- `r.ok`.
abbrev pub ok : ℕ → Bool
ok status = leb 200 status && ltb status 300

-- A status is of three digits.
abbrev pub status_text : ℕ → Str
status_text n = (48 + n / 100) ∷ (48 + n / 10 % 10) ∷ (48 + n % 10) ∷ []

-- `path + " -> " + r.status`.
pub refusal : Str → ℕ → Str
refusal path status = path ++ codes " -> " ++ status_text status

abbrev pub is_zero : Option Str → Bool
is_zero none = false
is_zero (some s) = eqs s (codes "0")

-- The value of `post` with a body.
abbrev pub body_of {ℓ} : {A : Type ℓ} → Result A → Result (Option A)
body_of (done a) = done (some a)
body_of (failed e) = failed e

module _ {ℓ} {A : Type ℓ} (path : Str) where
  -- `get`, and `patch` and `put`, whose ends are the same.
  unfoldable pub get : Fetched A → Result A
  get (unreachable e) = failed e
  get (answer r) = if ok r.status then r.body else failed (refusal path r.status)

  pub patch : Fetched A → Result A
  patch (unreachable e) = failed e
  patch (answer r) = if ok r.status then r.body else failed (refusal path r.status)

  pub put : Fetched A → Result A
  put (unreachable e) = failed e
  put (answer r) = if ok r.status then r.body else failed (refusal path r.status)

  -- `none` stands for `true`, the value of an answer without a body.
  pub post : Fetched A → Result (Option A)
  unfolding eqs
  post (unreachable e) = failed e
  post (answer r) =
      if not (ok r.status)
      then failed (refusal path r.status)
      else if r.status == 204 || is_zero r.content_length
      then done none
      else body_of r.body

  pub del : Fetched A → Result Bool
  del (unreachable e) = failed e
  del (answer r) =
      if not (ok r.status) && not (r.status == 204)
      then failed (refusal path r.status)
      else done true

-- `loadRepos`: `REPOS` afterwards, and how the call ends. An answer of `null` is `none`.
unfoldable pub load_repos {ℓ} :
    {A : Type ℓ} → List A → Fetched (Option (List A)) → List A × Result (List A)
unfolding get
load_repos repos f = elim (get (codes "/v1/repos") f) [
  | failed e ↦ (repos, failed e)
  | done none ↦ ([], done [])
  | done (some l) ↦ (l, done l)
]

-- What stands behind the first place where `p` occurs.
pub behind : Str → Str → Option Str
unfolding starts_with
behind p [] = if starts_with p [] then some [] else none
behind p (c ∷ s) =
    let later = behind p s in
    if starts_with p (c ∷ s) then some (drop (length p) (c ∷ s)) else later

-- `errMsg` of the admin panel (views/devsettings.jsx).
unfoldable pub err_msg : Str → Str
unfolding behind
err_msg m = elim (behind (codes "-> ") m) [
  | none ↦ codes "Action failed."
  | some rest ↦ codes "Action failed (" ++ rest ++ codes ")."
]
