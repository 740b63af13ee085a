-- ===== src/Repo/Releases/Published.antt =====
-- Who publishes and deletes releases.
use orchis_foundry.Prelude.{
  Bool, true, false, not, ◌&&◌, ◌||◌, List, [], ◌∷◌, if◌then◌else◌, if-case, and_both, or_neither,
  not-false, eqs_nil, ◌≡◌, ◌≢◌, refl, All, session, session-All, eqs, trim, trim_idem,
}
use orchis_foundry.Repo.Releases.{
  Releases, new_releases, Request, get_releases, post_release, delete_release, Event, draft, cancel,
  publish, type_tag, type_name, type_body, remove, set_prerelease, published, removed, listed,
  has_tag, or_nil, step,
}

-- A release is published and deleted by the owner, under a tag without blanks around it that is not
-- empty.
abbrev IsOwned : Bool → Request → Type 0
IsOwned is_owner (post_release t n b p) = (is_owner ≡ true) × (t ≢ []) × (trim t ≡ t)
IsOwned is_owner (delete_release t) = is_owner ≡ true
IsOwned is_owner get_releases = Unit

-- The form is only open for the owner.
abbrev IsOwnersForm : Bool → Releases → Type 0
IsOwnersForm is_owner s = s.creating ≡ true → is_owner ≡ true

module _ (is_owner : Bool) where
  abbrev IsGood : Releases × List Request → Type 0
  IsGood r = IsOwnersForm is_owner r.0 × All (IsOwned is_owner) r.1

  typed :
      (s t : Releases)
      → IsOwnersForm is_owner s
      → t.creating ≡ s.creating
      → IsOwnersForm is_owner (if s.creating then t else s)
  typed s t h e = if-case (IsOwnersForm is_owner) s.creating t s (λ _ c. h (cc (e, c))) (λ _. h)

  step-IsGood : (s : Releases) (e : Event) → IsOwnersForm is_owner s → IsGood (step is_owner s e)
  unfolding step
  step-IsGood s draft h = (if-case (IsOwnersForm is_owner) is_owner _ _ (λ o _. o) (λ _. h), tt)
  step-IsGood s cancel h = ((λ c. cc c), tt)
  step-IsGood s (type_tag t) h = (typed s _ h refl, tt)
  step-IsGood s (type_name t) h = (typed s _ h refl, tt)
  step-IsGood s (type_body t) h = (typed s _ h refl, tt)
  step-IsGood s (set_prerelease b) h = (typed s _ h refl, tt)
  step-IsGood s publish h =
      if-case IsGood (not s.creating || eqs (trim s.tag) [] || s.busy) _ _ (λ _. (h, tt))
        (λ f.
          let (g, _) = or_neither (not s.creating || eqs (trim s.tag) []) s.busy f in
          let (c, t) = or_neither (not s.creating) (eqs (trim s.tag) []) g in
          (h, ((h (not-false s.creating c), eqs_nil (trim s.tag) t, trim_idem s.tag), tt)))
  step-IsGood s (published true) h = ((λ c. cc c), (tt, tt))
  step-IsGood s (published false) h = (h, tt)
  step-IsGood s (remove t) h =
      if-case IsGood (is_owner && has_tag (or_nil s.items) t) (s, delete_release t ∷ []) (s, [])
        (λ b. (h, ((and_both is_owner (has_tag (or_nil s.items) t) b).0, tt))) (λ _. (h, tt))
  step-IsGood s (removed true) h = (h, (tt, tt))
  step-IsGood s (removed false) h = (h, tt)
  step-IsGood s (listed r) h = (h, tt)

  -- In a session from the first state on, all that changes the releases is asked for by the owner, and
  -- nothing is published under an empty tag.
  session-IsOwned :
      (es : List Event) → All (IsOwned is_owner) (session (step is_owner) new_releases es).1
  session-IsOwned es =
      (session-All (step is_owner) (IsOwnersForm is_owner) (IsOwned is_owner) step-IsGood es
        new_releases (λ c. cc c)).1
