-- ===== src/Repo/Chat/Dialogue.antt =====
-- The shape of the conversation, and its requests.
use orchis_foundry.Prelude.{
  ℕ, zero, suc, ◌+◌, ◌≤◌, Bool, true, false, ◌||◌, Option, none, some, List, [], ◌∷◌, ◌++◌, ◌≡◌,
  ◌∙◌, ◌⊎◌, inl, inr, refl, ap, sym, arith, if◌then◌else◌, or_neither, Bool-cases, Str, eqs, trim,
}
use orchis_foundry.Repo.Chat.{
  click_strip, collapse, pref_loaded, set_pref, type_input, on_strip, Role, user, assistant,
  Message, said, Chat, Request, post_chat, patch_pref, Event, send, replied, step, run,
}

abbrev last_role : Role → List Message → Role
last_role r [] = r
last_role r (m ∷ ms) = last_role m.role ms

-- Behind a message of the role `r`: whatever the assistant says follows a message of the user.
abbrev pub IsDialogue : Role → List Message → Type 0
IsDialogue r [] = Unit
IsDialogue r (m ∷ ms) = ((m.role ≡ user) ⊎ (r ≡ user)) × IsDialogue m.role ms

IsDialogue-append :
    (r : Role) (ms : List Message) (m : Message)
    → IsDialogue r ms
    → (m.role ≡ user) ⊎ (last_role r ms ≡ user)
    → IsDialogue r (ms ++ m ∷ [])
IsDialogue-append r [] m h o = (o, tt)
IsDialogue-append r (k ∷ ms) m (now, h) o = (now, IsDialogue-append k.role ms m h o)

last_role-append :
    (r : Role) (ms : List Message) (m : Message) → last_role r (ms ++ m ∷ []) ≡ m.role
last_role-append r [] m = refl
last_role-append r (k ∷ ms) m = last_role-append k.role ms m

-- A dialogue in which, while an answer is awaited, the user has spoken last.
abbrev IsOrdered : Chat → Type 0
IsOrdered c =
    IsDialogue assistant c.messages × (c.busy ≡ true → last_role assistant c.messages ≡ user)

-- A reply comes only while one is awaited.
abbrev IsAwaited : Chat → Event → Type 0
IsAwaited c (replied o) = c.busy ≡ true
IsAwaited c _ = Unit

-- The requests to the model among those of an event.
abbrev posts : List Request → ℕ
posts [] = 0
posts (post_chat i ms ps ∷ l) = suc (posts l)
posts (patch_pref b ∷ l) = posts l

-- A reply, or a failure, is that of a request which has none yet: of `n` such requests one is left less.
abbrev HasReply : ℕ → Event → Type 0
HasReply n (replied o) = 1 ≤ n
HasReply n _ = Unit

abbrev one_less : ℕ → ℕ
one_less zero = zero
one_less (suc n) = n

abbrev unanswered : ℕ → Event → ℕ → ℕ
unanswered n (replied o) p = one_less n + p
unanswered n _ p = n + p

abbrev count : Bool → ℕ
count b = if b then 1 else 0

busy_of : (n : ℕ) (c : Chat) → n ≡ count c.busy → 1 ≤ n → c.busy ≡ true
busy_of n c h r = ground (arith, h, r)

module _ (pins : List Str) where
  abbrev IsAwaitedRun : Chat → List Event → Type 0
  IsAwaitedRun c [] = Unit
  IsAwaitedRun c (e ∷ es) = IsAwaited c e × IsAwaitedRun (step pins c e).0 es

  -- A session in which replies answer requests, `n` of which have no reply before it.
  abbrev pub IsAnswered : ℕ → Chat → List Event → Type 0
  IsAnswered n c [] = Unit
  IsAnswered n c (e ∷ es) =
      HasReply n e × IsAnswered (unanswered n e (posts (step pins c e).1)) (step pins c e).0 es

  sent-IsOrdered :
      (c : Chat)
      → IsOrdered c
      → IsOrdered (record c {
        messages = c.messages ++ said user (trim c.input) ∷ [];
        input = [];
        busy = true;
        err = [];
      })
  sent-IsOrdered c (h, b) = (
    IsDialogue-append assistant c.messages _ h (inl refl),
    λ _. last_role-append assistant c.messages _,
  )

  IsOrdered-strip : (c : Chat) (o : Option Bool) → IsOrdered c → IsOrdered (on_strip c o).0
  IsOrdered-strip c none h = h
  IsOrdered-strip c (some true) h = h
  IsOrdered-strip c (some false) h = h

  IsOrdered-step :
      (c : Chat) (e : Event) → IsAwaited c e → IsOrdered c → IsOrdered (step pins c e).0
  unfolding step
  IsOrdered-step c send a h = elim (Bool-cases (eqs (trim c.input) [] || c.busy)) [
    | inl t ↦ rw t h
    | inr f ↦ rw f (sent-IsOrdered c h)
  ]
  IsOrdered-step c (replied none) a (h, b) = (h, λ e. cc e)
  IsOrdered-step c (replied (some r)) a (h, b) =
      (IsDialogue-append assistant c.messages _ h (inr (b a)), λ e. cc e)
  IsOrdered-step c click_strip a h = IsOrdered-strip c c.enabled h
  IsOrdered-step c _ a h = h

  IsOrdered-run :
      (es : List Event) (c : Chat) → IsAwaitedRun c es → IsOrdered c → IsOrdered (run pins c es).0
  unfolding run
  IsOrdered-run [] c a h = h
  IsOrdered-run (e ∷ es) c (now, a) h =
      IsOrdered-run es (step pins c e).0 a (IsOrdered-step c e now h)

  -- Replies that answer requests come only while one is awaited: there is never more than one request
  -- without a reply.
  counted :
      (n : ℕ) (c : Chat) (e : Event)
      → n ≡ count c.busy
      → HasReply n e
      → IsAwaited c e × (unanswered n e (posts (step pins c e).1) ≡ count (step pins c e).0.busy)
  unfolding step
  counted n c (replied none) h r = (busy_of n c h r, ground (arith, h, r))
  counted n c (replied (some k)) h r = (busy_of n c h r, ground (arith, h, r))
  counted n c send h r = elim (Bool-cases (eqs (trim c.input) [] || c.busy)) [
    | inl t ↦ rw t (tt, ground (arith, h))
    | inr f ↦
        let idle = (or_neither (eqs (trim c.input) []) c.busy f).1 in
        let zero_n : n ≡ 0 = h ∙ ap count idle in rw (f, zero_n) (tt, refl)
  ]
  counted n c click_strip h r = (tt, same c.enabled)
    where
      same : (o : Option Bool) → n + posts (on_strip c o).1 ≡ count (on_strip c o).0.busy
      same none = ground (arith, h)
      same (some true) = ground (arith, h)
      same (some false) = ground (arith, h)
  counted n c (pref_loaded o) h r = (tt, ground (arith, h))
  counted n c (set_pref on) h r = (tt, ground (arith, h))
  counted n c collapse h r = (tt, ground (arith, h))
  counted n c (type_input t) h r = (tt, ground (arith, h))

  IsAwaited-run :
      (es : List Event) (n : ℕ) (c : Chat)
      → n ≡ count c.busy
      → IsAnswered n c es
      → IsAwaitedRun c es
  IsAwaited-run [] n c h a = tt
  IsAwaited-run (e ∷ es) n c h (now, a) =
      let (awaited, next) = counted n c e h now in
      (awaited, IsAwaited-run es _ (step pins c e).0 next a)

  -- In a session that begins with a dialogue and no request without a reply, and in which every reply
  -- is to a request that has none yet, everything that the assistant says follows a message of the user.
  pub run-IsDialogue :
      (es : List Event) (c : Chat)
      → c.busy ≡ false
      → IsAnswered 0 c es
      → IsDialogue assistant c.messages
      → IsDialogue assistant (run pins c es).0.messages
  run-IsDialogue es c idle a h =
      let awaited = IsAwaited-run es 0 c (ap count (sym idle)) a in
      (IsOrdered-run es c awaited (h, λ b. cc (idle, b))).0
