-- ===== src/Settings/Scanner.antt =====
-- `ScannerPanel`: the model that scans and assists, with its key and its budgets. A field of numbers holds
-- the empty text or a decimal number, as the inputs of the browser give it, and none so small that it
-- reads as zero.
pub mod Sent
use orchis_foundry.Prelude.{
  ℕ, Bool, true, false, not, ◌&&◌, ◌||◌, Option, none, some, List, [], ◌∷◌, if◌then◌else◌, leb,
  ◌==◌, Str, codes, eqs, until,
}
use orchis_foundry.Api.{Result, done, failed}

-- What is in a field of numbers: a number of the server or a default, or what was typed.
pub data Amount : Type 0 where
  given : ℕ → Amount
  typed : Str → Amount

pub record ScannerConfig : Type 0 where
  pub enabled : Bool
  pub provider : Str
  pub base_url : Str
  pub model : Str
  pub has_key : Bool
  pub api_key : Str
  pub context_budget : Amount
  pub max_output_tokens : Amount
  pub prune_globs : Str

-- What is shown where the settings cannot be loaded.
abbrev pub default_config : ScannerConfig
default_config = record {
  enabled = false;
  provider = codes "anthropic";
  base_url = [];
  model = [];
  has_key = false;
  api_key = [];
  context_budget = given 8000;
  max_output_tokens = given 2048;
  prune_globs = [];
}

-- `cfg` is `none` while the settings are loaded.
pub record ScannerPanel : Type 0 where
  pub cfg : Option ScannerConfig
  pub saved : Bool
  pub err : Str

abbrev pub new_scanner : ScannerPanel
new_scanner = record { cfg = none; saved = false; err = [] }

-- The body of the PUT; `api_key` is `none` where the property is left out.
pub record Body : Type 0 where
  pub enabled : Bool
  pub provider : Str
  pub base_url : Str
  pub model : Str
  pub context_budget : Amount
  pub max_output_tokens : Amount
  pub prune_globs : Str
  pub api_key : Option Str

-- An edit of one field.
pub data Edit : Type 0 where
  enabled : Bool → Edit
  provider base_url model api_key context_budget max_output_tokens prune_globs : Str → Edit

pub data Event : Type 0 where
  loaded put_answer : Result ScannerConfig → Event
  edit : Edit → Event
  save : Event

abbrev is_e : ℕ → Bool
is_e c = c == 101 || c == 69

-- A digit that is not zero.
unfoldable has_digit : Str → Bool
has_digit [] = false
has_digit (c ∷ s) = leb 49 c && leb c 57 || has_digit s

-- Whether `Number(x)` is neither 0 nor NaN: by the digits before the exponent.
pub is_truthy : Amount → Bool
unfolding has_digit until
is_truthy (given n) = not (n == 0)
is_truthy (typed s) = has_digit (until is_e s).0

-- `Number(x) || d`.
pub number_or : Amount → ℕ → Amount
unfolding is_truthy
number_or a d = if is_truthy a then a else given d

abbrev pub key_of : Str → Option Str
key_of k = if eqs k [] then none else some k

pub put_body : ScannerConfig → Body
unfolding number_or eqs
put_body c = record {
  enabled = c.enabled;
  provider = c.provider;
  base_url = c.base_url;
  model = c.model;
  context_budget = number_or c.context_budget 8000;
  max_output_tokens = number_or c.max_output_tokens 2048;
  prune_globs = c.prune_globs;
  api_key = key_of c.api_key;
}

abbrev edited : ScannerConfig → Edit → ScannerConfig
edited c (enabled b) = record c { enabled = b }
edited c (provider t) = record c { provider = t }
edited c (base_url t) = record c { base_url = t }
edited c (model t) = record c { model = t }
edited c (api_key t) = record c { api_key = t }
edited c (context_budget t) = record c { context_budget = typed t }
edited c (max_output_tokens t) = record c { max_output_tokens = typed t }
edited c (prune_globs t) = record c { prune_globs = t }

-- `{ ...c, apiKey: "" }`.
abbrev without_key : ScannerConfig → ScannerConfig
without_key c = record c { api_key = [] }

abbrev loaded_or_default : Result ScannerConfig → ScannerConfig
loaded_or_default (done c) = without_key c
loaded_or_default (failed e) = default_config

abbrev pub edit_cfg : ScannerPanel → Option ScannerConfig → Edit → ScannerPanel
edit_cfg s none e = s
edit_cfg s (some c) e = record s { cfg = some (edited c e); saved = false }

pub save_cfg : ScannerPanel → Option ScannerConfig → ScannerPanel × List Body
unfolding put_body
save_cfg s none = (s, [])
save_cfg s (some c) = (record s { err = []; saved = false }, put_body c ∷ [])

abbrev pub save_failed : Str
save_failed = codes "Could not save. Check the fields and try again."

unfoldable pub step : ScannerPanel → Event → ScannerPanel × List Body
unfolding save_cfg
step s (loaded r) = (record s { cfg = some (loaded_or_default r) }, [])
step s (edit e) = (edit_cfg s s.cfg e, [])
step s save = save_cfg s s.cfg
step s (put_answer (done c)) = (record s { cfg = some (without_key c); saved = true }, [])
step s (put_answer (failed e)) = (record s { err = save_failed }, [])
