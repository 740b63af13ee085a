-- ===== src/Palette/Actions/Filter.antt =====
-- What the filter keeps of the static actions, and in which order.
use orchis_foundry.Prelude.{
  ℕ, suc, ◌≤◌, Bool, true, false, not, ◌&&◌, ◌++◌, starts_with, List, [], ◌∷◌, ◌≡◌, ◌∙◌, refl, ap,
  arith, inl, inr, Bool-cases, Str, eqs, trim, map, filter, All, ◌==◌, leb,
}
use orchis_foundry.Palette.Actions.{
  Action, static_actions, Scored, insert, sort, hay, score, matches, statics, includes,
}

abbrev IsSorted : List Scored → Type 0
IsSorted [] = Unit
IsSorted (x ∷ l) = All (λ y. x.score ≤ y.score) l × IsSorted l

insert-All :
    (k : ℕ) (x : Scored) (l : List Scored)
    → k ≤ x.score
    → All (λ y. k ≤ y.score) l
    → All (λ y. k ≤ y.score) (insert x l)
unfolding insert
insert-All k x [] h hs = (h, tt)
insert-All k x (y ∷ l) h (hy, hs) = ground (arith, insert-All k x l h hs)

le_all : (k m : ℕ) (l : List Scored) → k ≤ m → All (λ y. m ≤ y.score) l → All (λ y. k ≤ y.score) l
le_all k m [] h hs = tt
le_all k m (y ∷ l) h (hy, hs) = (omega arith, le_all k m l h hs)

insert-IsSorted : (x : Scored) (l : List Scored) → IsSorted l → IsSorted (insert x l)
unfolding insert
insert-IsSorted x [] h = (tt, tt)
insert-IsSorted x (y ∷ l) (hy, h) = elim (Bool-cases (leb x.score y.score)) [
  | inl e ↦
      let le : x.score ≤ y.score = ground arith in
      rw e ((le, le_all x.score y.score l le hy), (hy, h))
  | inr e ↦
      let le : y.score ≤ x.score = ground arith in
      rw e (insert-All y.score x l le hy, insert-IsSorted x l h)
]

sort-IsSorted : (l : List Scored) → IsSorted (sort l)
unfolding sort
sort-IsSorted [] = tt
sort-IsSorted (x ∷ l) = insert-IsSorted x (sort l) (sort-IsSorted l)

-- The elements of one score, in their order.
abbrev level : ℕ → List Scored → List Scored
level k l = filter (λ y. y.score == k) l

level-insert : (k : ℕ) (x : Scored) (l : List Scored) → level k (insert x l) ≡ level k (x ∷ l)
unfolding insert
level-insert k x [] = refl
level-insert k x (y ∷ l) = ground (arith, level-insert k x l)

level-sort : (k : ℕ) (l : List Scored) → level k (sort l) ≡ level k l
unfolding sort
level-sort k [] = refl
level-sort k (x ∷ l) = level-insert k x (sort l) ∙ ground (arith, level-sort k l)

module _ (lower : Str → Str) (ql : Str) where
  -- The scores belong to the actions.
  abbrev IsScored : List Scored → Type 0
  IsScored = All (λ s. s.score ≡ score lower s.action ql)

  abbrev actions_of : List Scored → List Action
  actions_of l = map (λ s. s.action) l

  matches-IsScored : (l : List Action) → IsScored (matches lower ql l)
  unfolding matches
  matches-IsScored [] = tt
  matches-IsScored (a ∷ l) = elim (Bool-cases (includes (hay lower a) ql)) [
    | inl e ↦ rw e (refl, matches-IsScored l)
    | inr e ↦ rw e (matches-IsScored l)
  ]

  insert-IsScored :
      (x : Scored) (l : List Scored)
      → x.score ≡ score lower x.action ql
      → IsScored l
      → IsScored (insert x l)
  unfolding insert
  insert-IsScored x [] h hs = (h, tt)
  insert-IsScored x (y ∷ l) h (hy, hs) = elim (Bool-cases (leb x.score y.score)) [
    | inl e ↦ rw e (h, (hy, hs))
    | inr e ↦ rw e (hy, insert-IsScored x l h hs)
  ]

  sort-IsScored : (l : List Scored) → IsScored l → IsScored (sort l)
  unfolding sort
  sort-IsScored [] h = tt
  sort-IsScored (x ∷ l) (h, hs) = insert-IsScored x (sort l) h (sort-IsScored l hs)

  level-matches :
      (k : ℕ) (l : List Action)
      → actions_of (level k (matches lower ql l))
        ≡ filter (λ a. includes (hay lower a) ql && (score lower a ql == k)) l
  unfolding matches
  level-matches k [] = refl
  level-matches k (a ∷ l) = elim (Bool-cases (includes (hay lower a) ql)) [
    | inl e ↦ elim (Bool-cases (score lower a ql == k)) [
      | inl t ↦ rw (e, t) (ap (a ∷◌) (level-matches k l))
      | inr t ↦ rw (e, t) (level-matches k l)
    ]
    | inr e ↦ rw e (level-matches k l)
  ]

-- A list that is in order is its levels, one behind the other.
level-empty : (k : ℕ) (l : List Scored) → All (λ y. suc k ≤ y.score) l → level k l ≡ []
level-empty k [] h = refl
level-empty k (y ∷ l) (hy, h) =
    let other : (y.score == k) ≡ false = ground arith in rw other (level-empty k l h)

level-skip :
    (k : ℕ) (x : Scored) (l : List Scored) → (x.score == k) ≡ false → level k (x ∷ l) ≡ level k l
level-skip k x l f = rw f refl

level-here :
    (k : ℕ) (x : Scored) (l : List Scored) → (x.score == k) ≡ true → level k (x ∷ l) ≡ x ∷ level k l
level-here k x l t = rw t refl

above : (k m : ℕ) (l : List Scored) → suc k ≤ m → All (λ y. m ≤ y.score) l → level k l ≡ []
above k m l h hs = level-empty k l (le_all (suc k) m l h hs)

levels :
    (l : List Scored)
    → IsSorted l
    → All (λ y. y.score ≤ 2) l
    → l ≡ level 0 l ++ (level 1 l ++ level 2 l)
levels [] h b = refl
levels (x ∷ l) (hx, h) (bx, b) = elim (Bool-cases (x.score == 0)) [
  | inl t ↦
      rw (level-here 0 x l t, level-skip 1 x l (ground arith), level-skip 2 x l (ground arith))
        (ap (x ∷◌) (levels l h b))
  | inr f ↦ elim (Bool-cases (x.score == 1)) [
    | inl t ↦
        let none_0 : level 0 l ≡ [] = above 0 x.score l (ground arith) hx in
        rw (level-skip 0 x l f, level-here 1 x l t, level-skip 2 x l (ground arith), none_0)
          (ap (x ∷◌) (levels l h b ∙ ap (λ k. k ++ (level 1 l ++ level 2 l)) none_0))
    | inr g ↦
        let two : (x.score == 2) ≡ true = ground arith in
        let none_0 : level 0 l ≡ [] = above 0 x.score l (ground arith) hx in
        let none_1 : level 1 l ≡ [] = above 1 x.score l (ground arith) hx in
        rw (level-skip 0 x l f, level-skip 1 x l g, level-here 2 x l two, none_0, none_1)
          (ap (x ∷◌) (
            levels l h b
            ∙ ap (λ k. k ++ (level 1 l ++ level 2 l)) none_0
            ∙ ap (λ k. k ++ level 2 l) none_1))
  ]
]

module _ (lower : Str → Str) (ql : Str) where
  -- Where the query stands: in the text of the row, at the start of its label, in its label.
  abbrev pub in_text : Action → Bool
  in_text a = includes (hay lower a) ql

  abbrev pub at_start : Action → Bool
  at_start a = starts_with ql (lower a.label)

  abbrev pub in_label : Action → Bool
  in_label a = includes (lower a.label) ql

  score-cases :
      (a : Action)
      → ((score lower a ql == 0) ≡ at_start a)
        × ((score lower a ql == 1) ≡ (not (at_start a) && in_label a))
        × ((score lower a ql == 2) ≡ (not (at_start a) && not (in_label a)))
        × (score lower a ql ≤ 2)
  unfolding score
  score-cases a = elim (Bool-cases (at_start a)) [
    | inl t ↦ rw t (refl, refl, refl, omega arith)
    | inr f ↦ elim (Bool-cases (in_label a)) [
      | inl t ↦ rw (f, t) (refl, refl, refl, omega arith)
      | inr g ↦ rw (f, g) (refl, refl, refl, omega arith)
    ]
  ]

  at_most_two : (l : List Scored) → IsScored lower ql l → All (λ y. y.score ≤ 2) l
  at_most_two [] h = tt
  at_most_two (y ∷ l) (e, h) = (rw e (score-cases y.action).3, at_most_two l h)

  filter-same :
      (p q r : Action → Bool) (l : List Action)
      → ((a : Action) → p a ≡ q a)
      → filter (λ a. r a && p a) l ≡ filter (λ a. r a && q a) l
  filter-same p q r [] h = refl
  filter-same p q r (a ∷ l) h = elim (Bool-cases (r a && q a)) [
    | inl t ↦ rw (h a, t) (ap (a ∷◌) (filter-same p q r l h))
    | inr f ↦ rw (h a, f) (filter-same p q r l h)
  ]

  -- A level of the sorted rows, by a test that says which it is.
  level-statics :
      (k : ℕ) (p : Action → Bool)
      → ((a : Action) → (score lower a ql == k) ≡ p a)
      → actions_of lower ql (level k (sort (matches lower ql static_actions)))
        ≡ filter (λ a. in_text a && p a) static_actions
  level-statics k p h =
      ap (actions_of lower ql) (level-sort k (matches lower ql static_actions))
      ∙ level-matches lower ql k static_actions
      ∙ filter-same (λ a. score lower a ql == k) p in_text static_actions h

  actions_of-append :
      (k l : List Scored)
      → actions_of lower ql (k ++ l) ≡ actions_of lower ql k ++ actions_of lower ql l
  actions_of-append [] l = refl
  actions_of-append (x ∷ k) l = ap (x.action ∷◌) (actions_of-append k l)

  actions_of-levels :
      (l : List Scored)
      → IsSorted l
      → IsScored lower ql l
      → actions_of lower ql l
        ≡ actions_of lower ql (level 0 l)
          ++ (actions_of lower ql (level 1 l) ++ actions_of lower ql (level 2 l))
  actions_of-levels l h s =
      ap (actions_of lower ql) (levels l h (at_most_two l s))
      ∙ actions_of-append (level 0 l) (level 1 l ++ level 2 l)
      ∙ ap (actions_of lower ql (level 0 l) ++◌) (actions_of-append (level 1 l) (level 2 l))

-- For a query that is not blank the static rows are those static actions whose text holds the query: first
-- those whose label starts with it, then those whose label holds it elsewhere, then those whose label does
-- not hold it, each of the three in the order of the list.
pub statics_lem :
    (lower : Str → Str) (q : Str)
    → eqs (trim q) [] ≡ false
    → statics lower q
      ≡ filter (λ a. in_text lower (lower q) a && at_start lower (lower q) a) static_actions
        ++ (filter
              (λ a.
                in_text lower (lower q) a
                && (not (at_start lower (lower q) a) && in_label lower (lower q) a))
              static_actions
            ++ filter
                (λ a.
                  in_text lower (lower q) a
                  && (not (at_start lower (lower q) a) && not (in_label lower (lower q) a)))
                static_actions)
unfolding statics
statics_lem lower q b =
    let ql = lower q in
    let found = matches lower ql static_actions in
    let scored = sort-IsScored lower ql found (matches-IsScored lower ql static_actions) in
    rw
      (
        b,
        ← level-statics lower ql 0 _ (λ a. (score-cases lower ql a).0),
        ← level-statics lower ql 1 _ (λ a. (score-cases lower ql a).1),
        ← level-statics lower ql 2 _ (λ a. (score-cases lower ql a).2),
      )
      (actions_of-levels lower ql (sort found) (sort-IsSorted found) scored)
