-- ===== src/Search/Session/Laws.antt =====
-- What is shown of the answers, and when the view says that it is searching.
use orchis_foundry.Prelude.{
  ℕ, ◌+◌, true, false, Option, none, some, List, [], ◌∷◌, ◌++◌, append_assoc, append-nil, filter,
  filter-append, if◌then◌else◌, ==_iff, ◌≡◌, ◌≢◌, inl, inr, ◌∙◌, refl, sym, ap, arith, Bool-cases,
  Str, eqs, eqs_iff, trim, All,
}
use orchis_foundry.Search.Session.{
  Hit, Search, Event, type_query, pick_lang, clear_repo, elapsed, answer, or_none, is_short, effect,
  step, run, RepoGroup, add_hit, group_hits, repo_groups,
}

-- An event that comes from an earlier run of the effect.
abbrev pub IsStale : ℕ → Event → Type 0
IsStale g (elapsed h) = h ≢ g
IsStale g (answer h o) = h ≢ g
IsStale g _ = ⊥

step-IsStale : (s : Search) (e : Event) → IsStale s.gen e → (step s e).0 ≡ s
unfolding step
step-IsStale s (elapsed h) ne = refl
step-IsStale s (answer h o) ne = ground arith
step-IsStale s (type_query q) ne = absurd ne
step-IsStale s (pick_lang l) ne = absurd ne
step-IsStale s clear_repo ne = absurd ne

run-IsStale : (es : List Event) (s : Search) → All (IsStale s.gen) es → run s es ≡ s
unfolding run
run-IsStale [] s h = refl
run-IsStale (e ∷ es) s (now, h) =
    let same = step-IsStale s e now in rw (run, same) (run-IsStale es s h)

module _ (s : Search) (q : Str) (new : q ≢ s.query) where
  abbrev typed : Search
  typed = record s { query = q }

  differs : eqs q s.query ≡ false
  differs = elim (Bool-cases (eqs q s.query)) [
    | inl t ↦ absurd (new ((eqs_iff q s.query).0 t))
    | inr f ↦ f
  ]

  step-typed : (step s (type_query q)).0 ≡ effect typed
  unfolding step
  step-typed = rw differs refl

  effect_long :
      is_short typed ≡ false → effect typed ≡ record typed { loading = true; gen = s.gen + 1 }
  unfolding effect
  effect_long h = rw h refl

  effect_short :
      is_short typed ≡ true
      → effect typed
        ≡ record typed { hits = if eqs (trim q) [] then none else some []; gen = s.gen + 1 }
  unfolding effect
  effect_short h = rw h refl

-- A search for a query of two units or more: the timers and answers of earlier runs change nothing,
-- and the answer of this run is what is shown, an error as no hits.
pub search_lem :
    (s : Search) (q : Str) (es : List Event) (o : Option (List Hit))
    → q ≢ s.query
    → is_short (record s { query = q }) ≡ false
    → All (IsStale (s.gen + 1)) es
    → (step (run (step s (type_query q)).0 es) (answer (s.gen + 1) o)).0
      ≡ record s { query = q; hits = some (or_none o); loading = false; gen = s.gen + 1 }
search_lem s q es o new long stale =
    rw
      (
        step-typed s q new,
        effect_long s q new long,
        run-IsStale es (record s { query = q; loading = true; gen = s.gen + 1 }) stale,
      )
      (accepted (s.gen + 1))
  where
    accepted :
        (g : ℕ)
        → (step (record s { query = q; loading = true; gen = g }) (answer g o)).0
          ≡ record s { query = q; hits = some (or_none o); loading = false; gen = g }
    accepted g = unfold step in rw ((==_iff g g).1 refl) refl

-- Where the query is made short while a search is running, the view says that it is searching, and goes
-- on saying so whatever timers and answers of earlier runs come.
pub short_query_lem :
    (s : Search) (q : Str) (es : List Event)
    → q ≢ s.query
    → is_short (record s { query = q }) ≡ true
    → s.loading ≡ true
    → All (IsStale (s.gen + 1)) es
    → (run (step s (type_query q)).0 es).loading ≡ true
short_query_lem s q es new short busy stale =
    rw
      (
        step-typed s q new,
        effect_short s q new short,
        run-IsStale es
            (record s {
              query = q;
              hits = if eqs (trim q) [] then none else some [];
              gen = s.gen + 1;
            })
            stale,
      )
      busy

-- The hits of the group of that name.
abbrev items_of : Str → List RepoGroup → List Hit
items_of r [] = []
items_of r (g ∷ gs) = if eqs g.name r then g.items else items_of r gs

abbrev of_repo : Str → List Hit → List Hit
of_repo r hs = filter (λ h. eqs h.repo r) hs

items_of-add_hit :
    (r : Str) (h : Hit) (gs : List RepoGroup)
    → items_of r (add_hit h gs) ≡ items_of r gs ++ of_repo r (h ∷ [])
unfolding add_hit
items_of-add_hit r h [] = ground arith
items_of-add_hit r h (g ∷ gs) = elim (Bool-cases (eqs g.name h.repo)) [
  | inl e ↦
      rw (e, (eqs_iff g.name h.repo).0 e)
        (elim (Bool-cases (eqs h.repo r)) [ inl t ↦ rw t refl | inr f ↦ rw f (sym (append-nil _)) ])
  | inr e ↦ rw e (elim (Bool-cases (eqs g.name r)) [
    | inl t ↦ rw (t, other r h g e t) (sym (append-nil _))
    | inr f ↦ rw f (items_of-add_hit r h gs)
  ])
]
  where
    other :
        (r : Str) (h : Hit) (g : RepoGroup)
        → eqs g.name h.repo ≡ false
        → eqs g.name r ≡ true
        → eqs h.repo r ≡ false
    other r h g e t = elim (Bool-cases (eqs h.repo r)) [
      | inl u ↦
          cc (e, (eqs_iff g.name h.repo).1 ((eqs_iff g.name r).0 t ∙ sym ((eqs_iff h.repo r).0 u)))
      | inr f ↦ f
    ]

items_of-group_hits :
    (r : Str) (hs : List Hit) (gs : List RepoGroup)
    → items_of r (group_hits gs hs) ≡ items_of r gs ++ of_repo r hs
unfolding group_hits
items_of-group_hits r [] gs = sym (append-nil _)
items_of-group_hits r (h ∷ hs) gs =
    items_of-group_hits r hs (add_hit h gs)
    ∙ ap (λ l. l ++ of_repo r hs) (items_of-add_hit r h gs)
    ∙ append_assoc (items_of r gs) (of_repo r (h ∷ [])) (of_repo r hs)
    ∙ ap (λ l. items_of r gs ++ l) (sym (filter-append (λ h. eqs h.repo r) (h ∷ []) hs))

-- The group of each repository has its hits, all of them, in the order of the answer.
items_of-repo_groups :
    (r : Str) (hs : List Hit) → items_of r (repo_groups (some hs)) ≡ filter (λ h. eqs h.repo r) hs
unfolding repo_groups
items_of-repo_groups r hs = items_of-group_hits r hs []
