-- ===== src/Sidebar/Seen.antt =====
-- What counts as unread.
use orchis_foundry.Prelude.{
  true, false, not, ◌&&◌, List, [], ◌∷◌, ◌++◌, if-case, includes-append, includes-one, Bool-cases,
  filter, length, ◌≡◌, ◌∙◌, refl, sym, Bool, ◌≤◌, ap, arith, All, In, All-In, session, inl, inr,
  Str, eqs_refl, includes,
}
use orchis_foundry.Sidebar.{
  Item, item_key, Bell, Request, persist, Event, got_inbox, notified, toggle, dismiss, go_clicked,
  add_key, add_keys, unread, is_empty, step, stored, opened,
}

includes-add : (s : List Str) (k q : Str) → includes s q ≡ true → includes (add_key s k) q ≡ true
unfolding add_key
includes-add s k q h = elim (Bool-cases (includes s k)) [
  | inl t ↦ rw t h
  | inr f ↦ rw (f, includes-append s (k ∷ []) q, h) refl
]

includes-add_same : (s : List Str) (k : Str) → includes (add_key s k) k ≡ true
unfolding add_key
includes-add_same s k = elim (Bool-cases (includes s k)) [
  | inl t ↦ rw (t, t) refl
  | inr f ↦ rw (f, includes-append s (k ∷ []) k, f, includes-one k k) (eqs_refl k)
]

includes-add_keys :
    (s : List Str) (is : List Item) (q : Str)
    → includes s q ≡ true
    → includes (add_keys s is) q ≡ true
unfolding add_keys
includes-add_keys s [] q h = h
includes-add_keys s (i ∷ is) q h =
    includes-add_keys (add_key s (item_key i)) is q (includes-add s (item_key i) q h)

-- Every item has been seen then.
add_keys-All :
    (s : List Str) (is : List Item) → All (λ i. includes (add_keys s is) (item_key i) ≡ true) is
unfolding add_keys
add_keys-All s [] = tt
add_keys-All s (i ∷ is) = (
  includes-add_keys (add_key s (item_key i)) is (item_key i) (includes-add_same s (item_key i)),
  add_keys-All (add_key s (item_key i)) is,
)

none-unread :
    (seen : List Str) (is : List Item)
    → All (λ i. includes seen (item_key i) ≡ true) is
    → length (filter (λ i. not (includes seen (item_key i))) is) ≡ 0
none-unread seen [] h = refl
none-unread seen (i ∷ is) (now, h) = rw now (none-unread seen is h)

-- A property of both ends of a click on the bell.
toggle-case :
    (P : Bell × List Request → Type 0) (b : Bell)
    → P (
      record b { is_open = true; seen = add_keys b.seen b.items },
      persist (add_keys b.seen b.items) ∷ [],
    )
    → P (record b { is_open = not b.is_open }, [])
    → P (step b toggle)
unfolding step
toggle-case P b h k = if-case P (not b.is_open && not (is_empty b.items)) _ _ (λ _. h) (λ _. k)

step-seen :
    (b : Bell) (e : Event) (q : Str)
    → includes b.seen q ≡ true
    → includes (step b e).0.seen q ≡ true
unfolding step
step-seen b toggle q h =
    toggle-case (λ r. includes r.0.seen q ≡ true) b (includes-add_keys b.seen b.items q h) h
step-seen b (got_inbox r) q h = h
step-seen b notified q h = h
step-seen b dismiss q h = h
step-seen b (go_clicked i r) q h = h

-- What has been seen stays seen.
session-seen :
    (es : List Event) (b : Bell) (q : Str)
    → includes b.seen q ≡ true
    → includes (session step b es).0.seen q ≡ true
unfolding session
session-seen [] b q h = h
session-seen (e ∷ es) b q h = session-seen es (step b e).0 q (step-seen b e q h)

-- Every key of the first list is one of the second.
abbrev IsPart : List Str → List Str → Type 0
IsPart s t = (q : Str) → includes s q ≡ true → includes t q ≡ true

-- Behind an event: what the storage holds is a part of what has been seen, whichever writes it takes, and
-- all of it where it takes them.
record Keeps (b c : Bell) (rs us : List Request) (final : List Str) : Type 0 where
  part :
      (s : List Str)
      → ((s : List Str) (ws : List Bool) → IsPart s c.seen → IsPart (stored s us ws) final)
      → IsPart s b.seen
      → (ws : List Bool) → IsPart (stored s (rs ++ us) ws) final
  whole : stored b.seen (rs ++ us) [] ≡ stored c.seen us []

quiet-Keeps :
    (b c : Bell) (us : List Request) (final : List Str) → c.seen ≡ b.seen → Keeps b c [] us final
quiet-Keeps b c us final e = record {
  part = λ s later h ws. later s ws (λ q i. rw e (h q i));
  whole = ap (λ k. stored k us []) (sym e);
}

toggle-Keeps :
    (b : Bell) (us : List Request) (final : List Str)
    → Keeps b (step b toggle).0 (step b toggle).1 us final
unfolding stored
toggle-Keeps b us final =
    toggle-case (λ r. Keeps b r.0 r.1 us final) b (record { part = written; whole = refl })
      (quiet-Keeps b (record b { is_open = not b.is_open }) us final refl)
  where
    written :
        (s : List Str)
        → ((s : List Str) (ws : List Bool)
            → IsPart s (add_keys b.seen b.items)
            → IsPart (stored s us ws) final)
        → IsPart s b.seen
        → (ws : List Bool) → IsPart (stored s (persist (add_keys b.seen b.items) ∷ us) ws) final
    written s later h [] = later (add_keys b.seen b.items) [] (λ q i. i)
    written s later h (true ∷ ws) = later (add_keys b.seen b.items) ws (λ q i. i)
    written s later h (false ∷ ws) = later s ws (λ q i. includes-add_keys b.seen b.items q (h q i))

step-Keeps :
    (b : Bell) (e : Event) (us : List Request) (final : List Str)
    → Keeps b (step b e).0 (step b e).1 us final
unfolding step stored
step-Keeps b toggle us final = toggle-Keeps b us final
step-Keeps b (got_inbox r) us final = quiet-Keeps b _ us final refl
step-Keeps b notified us final = record { part = λ s later h ws. later s ws h; whole = refl }
step-Keeps b dismiss us final = quiet-Keeps b _ us final refl
step-Keeps b (go_clicked i true) us final = record {
  part = λ s later h ws. later s ws h;
  whole = refl;
}
step-Keeps b (go_clicked i false) us final = quiet-Keeps b _ us final refl

session-IsPart :
    (es : List Event) (b : Bell) (s : List Str) (ws : List Bool)
    → IsPart s b.seen
    → IsPart (stored s (session step b es).1 ws) (session step b es).0.seen
unfolding session stored
session-IsPart [] b s ws h = h
session-IsPart (e ∷ es) b s ws h =
    let k = step-Keeps b e (session step (step b e).0 es).1 (session step (step b e).0 es).0.seen in
    k.part s (λ t us i. session-IsPart es (step b e).0 t us i) h ws

session-stored :
    (es : List Event) (b : Bell)
    → stored b.seen (session step b es).1 [] ≡ (session step b es).0.seen
unfolding session stored
session-stored [] b = refl
session-stored (e ∷ es) b =
    let k = step-Keeps b e (session step (step b e).0 es).1 (session step (step b e).0 es).0.seen in
    k.whole ∙ session-stored es (step b e).0

fewer-unread :
    (s t : List Str) (is : List Item)
    → IsPart s t
    → length (filter (λ i. not (includes t (item_key i))) is)
      ≤ length (filter (λ i. not (includes s (item_key i))) is)
fewer-unread s t [] h = omega arith
fewer-unread s t (i ∷ is) h = elim (Bool-cases (includes s (item_key i))) [
  | inl y ↦ rw (y, h (item_key i) y) (fewer-unread s t is h)
  | inr f ↦ elim (Bool-cases (includes t (item_key i))) [
    | inl y ↦ rw (f, y) (omega (arith, fewer-unread s t is h))
    | inr g ↦ rw (f, g) (omega (arith, fewer-unread s t is h))
  ]
]

-- The page that is opened again from what the storage has kept of a session counts no item as read that
-- the session did not, whichever writes the storage took, and where it took them all it counts the same.
pub session-reopened :
    (keys : List Str) (es : List Event) (items : List Item) (ws : List Bool)
    → (unread (record (session step (opened keys) es).0 { items = items })
        ≤ unread
            (record (opened (stored keys (session step (opened keys) es).1 ws)) { items = items }))
      × (unread
            (record (opened (stored keys (session step (opened keys) es).1 [])) { items = items })
          ≡ unread (record (session step (opened keys) es).0 { items = items }))
unfolding unread
session-reopened keys es items ws = (
  fewer-unread _ (session step (opened keys) es).0.seen items
      (session-IsPart es (opened keys) keys ws (λ q i. i)),
  rw (session-stored es (opened keys)) refl,
)

In-is_empty : (l : List Item) (i : Item) → In i l → is_empty l ≡ false
In-is_empty [] i m = absurd m.lower
In-is_empty (j ∷ l) i m = refl

toggle-seen :
    (b : Bell) (i : Item)
    → b.is_open ≡ false
    → In i b.items
    → includes (step b toggle).0.seen (item_key i) ≡ true
unfolding step
toggle-seen b i closed m =
    if-case (λ (r : Bell × List Request). includes r.0.seen (item_key i) ≡ true)
      (not b.is_open && not (is_empty b.items)) _ _
      (λ _.
        All-In (λ j. includes (add_keys b.seen b.items) (item_key j) ≡ true) b.items i
          (add_keys-All b.seen b.items) m)
      (λ f. let e = In-is_empty b.items i m in ground arith)

-- An inbox that is opened is read: nothing of it counts as unread, then or in any later state that shows
-- items of it.
pub toggle-unread :
    (b : Bell) (es : List Event) (items : List Item)
    → b.is_open ≡ false
    → All (λ i. In i b.items) items
    → unread (record (session step (step b toggle).0 es).0 { items = items }) ≡ 0
unfolding unread
toggle-unread b es items closed h =
    none-unread (session step (step b toggle).0 es).0.seen items (all items h)
  where
    seen : (i : Item) → In i b.items → includes (step b toggle).0.seen (item_key i) ≡ true
    seen i m = toggle-seen b i closed m

    all :
        (is : List Item)
        → All (λ i. In i b.items) is
        → All (λ i. includes (session step (step b toggle).0 es).0.seen (item_key i) ≡ true) is
    all [] h = tt
    all (i ∷ is) (m, h) = (session-seen es (step b toggle).0 (item_key i) (seen i m), all is h)
