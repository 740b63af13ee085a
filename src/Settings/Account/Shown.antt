-- ===== src/Settings/Account/Shown.antt =====
-- Who the application shows as the user.
use orchis_foundry.Prelude.{ℕ, List, [], ◌∷◌}
use orchis_foundry.Api.{done}
use orchis_foundry.Settings.Account.{
  Profile, Account, Request, me_changed, Event, saved_answer, uploaded, photo_removed,
}

-- The user of the last answer to a change, or `u` without one.
abbrev pub last_user : Profile → List Event → Profile
last_user u [] = u
last_user u (saved_answer (done v) ∷ es) = last_user v es
last_user u (uploaded (done v) ∷ es) = last_user v es
last_user u (photo_removed (done v) ∷ es) = last_user v es
last_user u (_ ∷ es) = last_user u es

abbrev pub changes : Event → ℕ
changes (saved_answer (done v)) = 1
changes (uploaded (done v)) = 1
changes (photo_removed (done v)) = 1
changes _ = 0

abbrev pub announces : Request → ℕ
announces me_changed = 1
announces _ = 0
