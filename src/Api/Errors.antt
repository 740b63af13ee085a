-- ===== src/Api/Errors.antt =====
-- What the calls of the client end with, and what the admin panel reads from their errors.
use orchis_foundry.Prelude.{
  ℕ, true, false, none, some, [], ◌∷◌, ◌++◌, ◌≡◌, refl, ◌↔◌, ◌≢◌, ◌||◌, ◌⊎◌, inl, inr, Bool-cases,
  arith, starts_with, Str, codes, Lacks, ◌==◌,
}
use orchis_foundry.Api.{
  is_zero, body_of, Result, done, failed, Response, answer, ok, refusal, status_text, get, patch,
  put, post, del, behind, err_msg,
}

starts_with-no :
    (c : ℕ) (path t : Str)
    → Lacks 62 path
    → starts_with (codes "-> ") (c ∷ path ++ codes " -> " ++ t) ≡ false
unfolding starts_with
starts_with-no c [] t h = ground arith
starts_with-no c (d ∷ path) t (ne, h) = ground arith

behind-refusal :
    (path t : Str) → Lacks 62 path → behind (codes "-> ") (path ++ codes " -> " ++ t) ≡ some t
unfolding behind
behind-refusal [] t h = refl
behind-refusal (c ∷ path) t (ne, h) = rw (starts_with-no c path t h) (behind-refusal path t h)

err_msg-refusal :
    (path : Str) (status : ℕ)
    → Lacks 62 path
    → err_msg (refusal path status) ≡ codes "Action failed (" ++ status_text status ++ codes ")."
unfolding err_msg refusal
err_msg-refusal path status lacks =
    let e = behind-refusal path (status_text status) lacks in rw (err_msg, e) refl

refused-204 : (s : ℕ) → ok s ≡ false → (s == 204) ≡ false
refused-204 s h = ground arith

module _ {ℓ} {A : Type ℓ} where
  body-some : (b : Result A) (a : A) → (body_of b ≡ done (some a)) ↔ (b ≡ done a)
  body-some (done x) a = (λ e. cc e, λ e. cc e)
  body-some (failed e) a = (λ e. cc e, λ e. cc e)

  body-none : (b : Result A) → body_of b ≢ done none
  body-none (done x) e = cc e
  body-none (failed e) h = cc h

module _ {ℓ} {A : Type ℓ} (path : Str) where
  -- Whatever the call, a refused request is reported with its status, where the path has no ">".
  pub err_msg-calls :
      (r : Response A)
      → ok r.status ≡ false
      → Lacks 62 path
      → (e : Str) × (get path (answer r) ≡ failed e)
        × (patch path (answer r) ≡ failed e)
        × (put path (answer r) ≡ failed e)
        × (post path (answer r) ≡ failed e)
        × (del path (answer r) ≡ failed e)
        × (err_msg e ≡ codes "Action failed (" ++ status_text r.status ++ codes ").")
  unfolding get patch put post del
  err_msg-calls r h lacks = (
    refusal path r.status,
    rw h refl,
    rw h refl,
    rw h refl,
    rw h refl,
    rw (h, refused-204 r.status h) refl,
    err_msg-refusal path r.status lacks,
  )

  -- Which answers a call takes for success. A GET gives a value exactly where the status is in the range of
  -- success and the body holds the value; a POST the same, but where the status is 204 or the length is 0
  -- it succeeds without a value and the body is not read; a DELETE succeeds by its status alone.
  pub calls_lem :
      (r : Response A)
      → ((a : A) → ((get path (answer r) ≡ done a) ↔ ((ok r.status ≡ true) × (r.body ≡ done a))))
        × ((a : A)
            → ((post path (answer r) ≡ done (some a)) ↔ (
                (ok r.status ≡ true)
                × ((r.status == 204) ≡ false)
                × (is_zero r.content_length ≡ false)
                × (r.body ≡ done a))))
        × ((post path (answer r) ≡ done none) ↔ (
            (ok r.status ≡ true)
            × (((r.status == 204) ≡ true) ⊎ (is_zero r.content_length ≡ true))))
        × ((del path (answer r) ≡ done true) ↔ (ok r.status ≡ true))
  unfolding get post del
  calls_lem r = elim (Bool-cases (ok r.status)) [
    | inl t ↦ elim (Bool-cases ((r.status == 204) || is_zero r.content_length)) [
      | inl u ↦ (
        λ a. rw t ((λ h. (refl, h)), λ h. h.1),
        λ a. rw (t, u) (ground arith),
        rw (t, u) (ground arith),
        rw t (ground arith),
      )
      | inr f ↦
          let (n, z) : ((r.status == 204) ≡ false) × (is_zero r.content_length ≡ false) =
            ground arith in
          (
            λ a. rw t ((λ h. (refl, h)), λ h. h.1),
            λ a.
                rw (t, f)
                  ((λ h. (refl, n, z, (body-some r.body a).0 h)), λ h. (body-some r.body a).1 h.3),
            rw (t, f) ((λ h. absurd (body-none r.body h)), λ h. ground arith),
            rw t (ground arith),
          )
    ]
    | inr f ↦ (
      λ a. rw f (ground arith),
      λ a. rw f (ground arith),
      rw f (ground arith),
      rw (f, refused-204 r.status f) (ground arith),
    )
  ]
