-- ===== src/Repo/Pins/Toggles.antt =====
-- What toggling does.
use orchis_foundry.Prelude.{
  includes, ℕ, ◌+◌, ◌-◌, ◌≤◌, Bool, true, false, not, ◌&&◌, List, [], ◌∷◌, ◌++◌, if◌then◌else◌,
  filter, ◌≡◌, refl, ap, arith, ◌⊎◌, inl, inr, Bool-cases, Str, eqs, eqs_iff, eqs_refl, eqs_sym,
  includes-append, includes-one,
}
use orchis_foundry.Repo.Pins.{toggled, PinState, show_repo, toggle_pin_file, Meta, toggle_star}

abbrev without : List Str → Str → List Str
without l path = filter (λ x. not (eqs x path)) l

and_false : (b : Bool) → (b && false) ≡ false
and_false true = refl
and_false false = refl

and_true : (b : Bool) → (b && true) ≡ b
and_true true = refl
and_true false = refl

includes-filter :
    (l : List Str) (path q : Str) → includes (without l path) q ≡ (includes l q && not (eqs q path))
unfolding includes
includes-filter [] path q = refl
includes-filter (x ∷ l) path q = elim (Bool-cases (eqs x path)) [
  | inl t ↦ elim (Bool-cases (eqs x q)) [
    | inl u ↦
        let e : eqs q path ≡ true = rw ((eqs_iff x q).0 u) at t in
        rw (t, u, includes-filter l path q, e) (and_false _)
    | inr f ↦ rw (t, f) (includes-filter l path q)
  ]
  | inr f ↦ elim (Bool-cases (eqs x q)) [
    | inl u ↦ let e : eqs q path ≡ false = rw ((eqs_iff x q).0 u) at f in rw (f, u, e) refl
    | inr g ↦ rw (f, g) (includes-filter l path q)
  ]
]

toggled_in : (l : List Str) (path : Str) → includes l path ≡ true → toggled l path ≡ without l path
unfolding toggled
toggled_in l path h = rw h refl

toggled_out :
    (l : List Str) (path : Str) → includes l path ≡ false → toggled l path ≡ l ++ path ∷ []
unfolding toggled
toggled_out l path h = rw h refl

-- A toggle changes whether that path is pinned, and no other.
includes-toggled :
    (l : List Str) (path q : Str)
    → includes (toggled l path) q ≡ (if eqs path q then not (includes l q) else includes l q)
includes-toggled l path q = elim (Bool-cases (includes l path)) [
  | inl t ↦
      rw (toggled_in l path t, includes-filter l path q, eqs_sym q path)
        (elim (Bool-cases (eqs path q)) [
          | inl u ↦ let e : includes l q ≡ true = rw ((eqs_iff path q).0 u) at t in rw (u, e) refl
          | inr f ↦ rw f (and_true _)
        ])
  | inr f ↦
      rw (toggled_out l path f, includes-append l (path ∷ []) q, includes-one path q)
        (elim (Bool-cases (eqs path q)) [
          | inl u ↦ let e : includes l q ≡ false = rw ((eqs_iff path q).0 u) at f in rw (u, e) refl
          | inr g ↦ rw g (same (includes l q))
        ])
]
  where
    same : (b : Bool) → (if b then true else false) ≡ b
    same true = refl
    same false = refl

-- What is pinned in a repository, and taken by the storage, is there again when the view comes back to it
-- from another one.
show_repo-toggle :
    (s : PinState) (path other : Str)
    → (show_repo (show_repo (toggle_pin_file s path true) other) s.repo).pins
      ≡ (toggle_pin_file s path true).pins
unfolding show_repo toggle_pin_file
show_repo-toggle s path other = rw (eqs_refl s.repo) refl

-- The star that is clicked twice is as before, unless it was set and counted by no one.
toggle_star_twice :
    (m : Meta) → (m.starred ≡ false) ⊎ (1 ≤ m.stars) → (toggle_star (toggle_star m).0).0 ≡ m
unfolding toggle_star
toggle_star_twice m h = twice m.stars m.starred m.pinned h
  where
    twice :
        (n : ℕ) (b p : Bool)
        → (b ≡ false) ⊎ (1 ≤ n)
        → (toggle_star (toggle_star (record { stars = n; starred = b; pinned = p })).0).0
          ≡ record { stars = n; starred = b; pinned = p }
    twice n true p (inl e) = cc e
    twice n true p (inr o) =
        let e : n - 1 + 1 ≡ n = omega (arith, o) in
        ap (λ k. record { stars = k; starred = true; pinned = p }) e
    twice n false p o =
        let e : n + 1 - 1 ≡ n = omega arith in
        ap (λ k. record { stars = k; starred = false; pinned = p }) e
