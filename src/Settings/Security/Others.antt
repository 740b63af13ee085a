-- ===== src/Settings/Security/Others.antt =====
-- Which sessions the panel ends.
use orchis_foundry.Prelude.{
  true, false, not, ◌&&◌, List, [], ◌∷◌, if-case, and_both, not-true, Bool-cases, length, filter,
  ltb, ◌≡◌, refl, arith, All, In, inl, inr, Str, eqs_iff,
}
use orchis_foundry.Settings.Security.{
  BrowserSession, Security, shown_sessions, other_count, Request, get_sessions, post_revoke_others,
  delete_session, Event, has_row, same_row, step, revoke, listed, revoked, others_revoked,
  revoke_others,
}

-- A listed session that is not the one of this browser.
abbrev pub IsOther : Security → Str → Type 0
IsOther s i = (x : BrowserSession) × In x (shown_sessions s) × (x.id ≡ i) × (x.is_current ≡ false)

-- The one session that a request ends is another one, and all the others are only ended where there are some.
abbrev pub IsForOther : Security → Request → Type 0
IsForOther s (delete_session i) = IsOther s i
IsForOther s post_revoke_others =
    (x : BrowserSession) × In x (shown_sessions s) × (x.is_current ≡ false)
IsForOther s get_sessions = Unit

same_row-true :
    (y x : BrowserSession)
    → same_row y x ≡ true
    → x.is_current ≡ false
    → (y.id ≡ x.id) × (y.is_current ≡ false)
unfolding same_row
same_row-true y x h c = ((eqs_iff y.id x.id).0 (ground arith), ground arith)

has_row-In :
    (l : List BrowserSession) (x : BrowserSession)
    → has_row l x ≡ true
    → x.is_current ≡ false
    → (y : BrowserSession) × In y l × (y.id ≡ x.id) × (y.is_current ≡ false)
unfolding has_row
has_row-In [] x h c = cc h
has_row-In (y ∷ l) x h c = elim (Bool-cases (same_row y x)) [
  | inl t ↦ let (i, k) = same_row-true y x t c in (y, inl refl, i, k)
  | inr f ↦ let (z, i, p, q) = has_row-In l x (rw f at h) c in (z, inr i, p, q)
]

other_count-In :
    (l : List BrowserSession)
    → ltb 0 (length (filter (λ x. not x.is_current) l)) ≡ true
    → (x : BrowserSession) × In x l × (x.is_current ≡ false)
other_count-In [] h = cc h
other_count-In (x ∷ l) h = elim (Bool-cases x.is_current) [
  | inl t ↦ let (y, i, c) = other_count-In l (rw t at h) in (y, inr i, c)
  | inr f ↦ (x, inl refl, f)
]

-- Whatever the state and the event, the one session that a request ends is listed and is not that of
-- this browser, and all the others are ended only where there is another one.
pub step-IsForOther : (s : Security) (e : Event) → All (IsForOther s) (step s e).1
unfolding step other_count
step-IsForOther s (listed r) = tt
step-IsForOther s (revoke x) =
    if-case (λ (r : Security × List Request). All (IsForOther s) r.1)
      (has_row (shown_sessions s) x && not x.is_current) (s, delete_session x.id ∷ []) (s, [])
      (λ t. (
        has_row-In (shown_sessions s) x
            (and_both (has_row (shown_sessions s) x) (not x.is_current) t).0
            (not-true x.is_current
              (and_both (has_row (shown_sessions s) x) (not x.is_current) t).1),
        tt,
      ))
      (λ _. tt)
step-IsForOther s (revoked true) = (tt, tt)
step-IsForOther s (revoked false) = tt
step-IsForOther s revoke_others =
    if-case (λ (r : Security × List Request). All (IsForOther s) r.1)
      (ltb 0 (other_count s) && not s.busy) _ (s, [])
      (λ t.
        (other_count-In (shown_sessions s) (and_both (ltb 0 (other_count s)) (not s.busy) t).0, tt))
      (λ _. tt)
step-IsForOther s (others_revoked true) = (tt, tt)
step-IsForOther s (others_revoked false) = tt
