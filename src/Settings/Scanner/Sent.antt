-- ===== src/Settings/Scanner/Sent.antt =====
-- The key and the budgets that are sent.
use orchis_foundry.Prelude.{
  ℕ, true, Option, none, some, List, [], ◌∷◌, if-case, Bool-cases, ◌==◌, ◌≡◌, ◌≢◌, ◌⊎◌, inl, inr,
  refl, All, session, session-All, Str, eqs, eqs_nil, ==_iff, ap, sym, ◌∙◌, In, In-append,
}
use orchis_foundry.Api.{done, failed}
use orchis_foundry.Settings.Scanner.{
  Amount, given, ScannerConfig, ScannerPanel, Body, Edit, enabled, provider, base_url, model,
  api_key, context_budget, max_output_tokens, prune_globs, Event, loaded, put_answer, edit, save,
  is_truthy, number_or, key_of, put_body, edit_cfg, save_cfg, step,
}

-- A budget that is sent is a number other than zero, and a key that is sent is not empty.
abbrev IsSent : Body → Type 0
IsSent b =
    (is_truthy b.context_budget ≡ true)
    × (is_truthy b.max_output_tokens ≡ true)
    × (b.api_key ≢ some [])

given-truthy : (d : ℕ) → d ≢ 0 → is_truthy (given d) ≡ true
unfolding is_truthy
given-truthy d h = elim (Bool-cases (d == 0)) [
  | inl t ↦ absurd (h ((==_iff d 0).0 t))
  | inr f ↦ rw f refl
]

number_or-truthy : (a : Amount) (d : ℕ) → d ≢ 0 → is_truthy (number_or a d) ≡ true
unfolding number_or
number_or-truthy a d h =
    if-case (λ x. is_truthy x ≡ true) (is_truthy a) a (given d) (λ t. t) (λ _. given-truthy d h)

some_inj : {a b : Str} → some a ≡ some b → a ≡ b
some_inj e = cc e

key_some : (k : Str) → key_of k ≢ some []
key_some k =
    if-case (λ o. o ≢ some []) (eqs k []) none (some k) (λ _ e. cc e)
      (λ f e. eqs_nil k f (some_inj e))

body-IsSent : (c : ScannerConfig) → IsSent (put_body c)
unfolding put_body
body-IsSent c = (
  number_or-truthy c.context_budget 8000 (λ e. cc e),
  number_or-truthy c.max_output_tokens 2048 (λ e. cc e),
  key_some c.api_key,
)

step-IsSent : (s : ScannerPanel) (e : Event) → All IsSent (step s e).1
unfolding step
step-IsSent s (loaded r) = tt
step-IsSent s (edit e) = tt
step-IsSent s save = save-IsSent s s.cfg
  where
    save-IsSent : (s : ScannerPanel) (o : Option ScannerConfig) → All IsSent (save_cfg s o).1
    save-IsSent s none = tt
    save-IsSent s (some c) = (body-IsSent c, tt)
step-IsSent s (put_answer (done c)) = tt
step-IsSent s (put_answer (failed e)) = tt

-- Everything that a session sends has budgets other than zero and no empty key.
session-IsSent : (es : List Event) (s : ScannerPanel) → All IsSent (session step s es).1
session-IsSent es s =
    (session-All step (λ _. Unit {0}) IsSent (λ s e _. (tt, step-IsSent s e)) es s tt).1

abbrev key_in : Option ScannerConfig → Str
key_in none = []
key_in (some c) = c.api_key

abbrev pub key_here : ScannerPanel → Str
key_here s = key_in s.cfg

edit-key :
    (s : ScannerPanel) (o : Option ScannerConfig) (e : Edit) (k : Str)
    → s.cfg ≡ o
    → key_in (edit_cfg s o e).cfg ≡ k
    → (key_in o ≡ k) ⊎ (edit (api_key k) ≡ edit e)
edit-key s none e k n h = inl (ap key_in (sym n) ∙ h)
edit-key s (some c) (enabled b) k n h = inl h
edit-key s (some c) (provider t) k n h = inl h
edit-key s (some c) (base_url t) k n h = inl h
edit-key s (some c) (model t) k n h = inl h
edit-key s (some c) (api_key t) k n h = inr (ap (λ x. edit (api_key x)) (sym h))
edit-key s (some c) (context_budget t) k n h = inl h
edit-key s (some c) (max_output_tokens t) k n h = inl h
edit-key s (some c) (prune_globs t) k n h = inl h

save-key : (s : ScannerPanel) (o : Option ScannerConfig) → s.cfg ≡ o → (save_cfg s o).0.cfg ≡ s.cfg
unfolding save_cfg
save-key s none n = refl
save-key s (some c) n = refl

-- A key is in its field only because it was typed there.
step-key :
    (s : ScannerPanel) (e : Event) (k : Str)
    → k ≢ []
    → key_here (step s e).0 ≡ k
    → (key_here s ≡ k) ⊎ (edit (api_key k) ≡ e)
unfolding step
step-key s (loaded (done c)) k ne h = absurd (ne (sym h))
step-key s (loaded (failed e)) k ne h = absurd (ne (sym h))
step-key s (edit e) k ne h = edit-key s s.cfg e k refl h
step-key s save k ne h = inl (ap key_in (sym (save-key s s.cfg refl)) ∙ h)
step-key s (put_answer (done c)) k ne h = absurd (ne (sym h))
step-key s (put_answer (failed e)) k ne h = inl h

key_of-some : (a k : Str) → key_of a ≡ some k → a ≡ k
key_of-some a k =
    if-case (λ o. o ≡ some k → a ≡ k) (eqs a []) none (some a) (λ _ e. cc e) (λ _ e. cc e)

sent-key :
    (s : ScannerPanel) (o : Option ScannerConfig) (b : Body) (k : Str)
    → In b (save_cfg s o).1
    → b.api_key ≡ some k
    → key_in o ≡ k
unfolding save_cfg put_body
sent-key s none b k i e = absurd i.lower
sent-key s (some c) b k (inl q) e = key_of-some c.api_key k (rw q at e)
sent-key s (some c) b k (inr i) e = absurd i.lower

step-sent :
    (s : ScannerPanel) (e : Event) (b : Body) (k : Str)
    → In b (step s e).1
    → b.api_key ≡ some k
    → key_here s ≡ k
unfolding step
step-sent s save b k i e = sent-key s s.cfg b k i e
step-sent s (loaded r) b k i e = absurd i.lower
step-sent s (edit x) b k i e = absurd i.lower
step-sent s (put_answer (done c)) b k i e = absurd i.lower
step-sent s (put_answer (failed m)) b k i e = absurd i.lower

-- A key that is sent was typed: it stood in the field at the start of the session, or an edit of the
-- session put it there. No key comes from an answer of the server.
pub session-key :
    (es : List Event) (s : ScannerPanel) (b : Body) (k : Str)
    → In b (session step s es).1
    → b.api_key ≡ some k
    → k ≢ []
    → (key_here s ≡ k) ⊎ In (edit (api_key k)) es
unfolding session
session-key [] s b k i e ne = absurd i.lower
session-key (x ∷ es) s b k i e ne =
    elim (In-append b (step s x).1 (session step (step s x).0 es).1 i) [
      | inl now ↦ inl (step-sent s x b k now e)
      | inr later ↦ elim (session-key es (step s x).0 b k later e ne) [
        | inr typed ↦ inr (inr typed)
        | inl here ↦ elim (step-key s x k ne here) [
          | inl before ↦ inl before
          | inr now ↦ inr (inl now)
        ]
      ]
    ]
