-- ===== src/Settings/Admin/Providers.antt =====
-- What the server is told of the providers.
use orchis_foundry.Prelude.{
  Bool, true, false, Option, none, some, List, [], ◌∷◌, if◌then◌else◌, Bool-cases, ◌≡◌, ◌∙◌, sym,
  refl, ap, inl, inr, Str, eqs, eqs_iff, eqs_sym,
}
use orchis_foundry.Settings.Admin.{Provider, Entry, set_prov, put_entry, entries, with_enabled}

-- The property `i` of the object.
pub entry : List Entry → Str → Option Bool
unfolding eqs
entry [] i = none
entry (x ∷ xs) i = if eqs x.id i then some x.enabled else entry xs i

-- The switch of a provider, the last where an id stands twice.
unfoldable switch_of : Option Bool → List Provider → Str → Option Bool
unfolding eqs
switch_of o [] i = o
switch_of o (p ∷ ps) i = switch_of (if eqs p.id i then some p.enabled else o) ps i

entry-put :
    (xs : List Entry) (k i : Str) (v : Bool)
    → entry (put_entry xs k v) i ≡ (if eqs k i then some v else entry xs i)
unfolding entry put_entry
entry-put [] k i v = refl
entry-put (x ∷ xs) k i v = elim (Bool-cases (eqs x.id k)) [
  | inl t ↦
      let e : eqs k i ≡ eqs x.id i = ap (λ z. eqs z i) (sym ((eqs_iff x.id k).0 t)) in
      rw (t, e) (twice (eqs x.id i) v (entry xs i) x.enabled)
  | inr f ↦ elim (Bool-cases (eqs x.id i)) [
    | inl t ↦
        let e : eqs k i ≡ false =
          eqs_sym k i ∙ (ap (λ z. eqs z k) (sym ((eqs_iff x.id i).0 t)) ∙ f) in
        rw (f, t, e) refl
    | inr g ↦ rw (f, g) (entry-put xs k i v)
  ]
]
  where
    twice :
        (b v : Bool) (o : Option Bool) (w : Bool)
        → (if b then some v else o) ≡ (if b then some v else (if b then some w else o))
    twice true v o w = refl
    twice false v o w = refl

entry-entries :
    (ps : List Provider) (xs : List Entry) (i : Str)
    → entry (entries xs ps) i ≡ switch_of (entry xs i) ps i
unfolding entries switch_of
entry-entries [] xs i = refl
entry-entries (p ∷ ps) xs i =
    entry-entries ps (put_entry xs p.id p.enabled) i
    ∙ ap (λ o. switch_of o ps i) (entry-put xs p.id i p.enabled)

-- Whether there is such a provider.
unfoldable has_provider : List Provider → Str → Bool
unfolding eqs
has_provider [] i = false
has_provider (p ∷ ps) i = if eqs p.id i then true else has_provider ps i

-- A switch that is set, as `switch_of` reads it.
chosen :
    (k i : Str) (v : Bool) (p : Provider) (o : Option Bool)
    → (if eqs (with_enabled k v p).id i then some (with_enabled k v p).enabled else o)
      ≡ (if eqs p.id i then some (if eqs p.id k then v else p.enabled) else o)
chosen k i v p o = elim (Bool-cases (eqs p.id k)) [ inl t ↦ rw t refl | inr f ↦ rw f refl ]

other :
    (k i : Str) (v : Bool) (p : Provider) (o : Option Bool)
    → eqs k i ≡ false
    → (if eqs p.id i then some (if eqs p.id k then v else p.enabled) else o)
      ≡ (if eqs p.id i then some p.enabled else o)
other k i v p o h = elim (Bool-cases (eqs p.id i)) [
  | inl t ↦
      let e : eqs p.id k ≡ false = ap (λ z. eqs z k) ((eqs_iff p.id i).0 t) ∙ (eqs_sym i k ∙ h) in
      rw (t, e) refl
  | inr f ↦ rw f refl
]

switch-set :
    (ps : List Provider) (o : Option Bool) (k i : Str) (v : Bool)
    → eqs k i ≡ false
    → switch_of o (set_prov ps k v) i ≡ switch_of o ps i
unfolding switch_of
switch-set [] o k i v h = refl
switch-set (p ∷ ps) o k i v h =
    ap (λ z. switch_of z (set_prov ps k v) i) (chosen k i v p o ∙ other k i v p o h)
    ∙ switch-set ps _ k i v h

switch-set_same :
    (ps : List Provider) (o : Option Bool) (k : Str) (v : Bool)
    → switch_of o (set_prov ps k v) k ≡ (if has_provider ps k then some v else o)
unfolding switch_of has_provider
switch-set_same [] o k v = refl
switch-set_same (p ∷ ps) o k v =
    ap (λ z. switch_of z (set_prov ps k v) k) (chosen k k v p o)
    ∙ (switch-set_same ps _ k v ∙ same (has_provider ps k) (eqs p.id k))
  where
    same :
        (a b : Bool)
        → (if a then some v else (if b then some (if b then v else p.enabled) else o))
          ≡ (if (if b then true else a) then some v else o)
    same true true = refl
    same true false = refl
    same false true = refl
    same false false = refl

-- What is saved after a switch is set: the provider of that switch as it was set, where there is one, and
-- every other as before.
entries-set_prov :
    (ps : List Provider) (k : Str) (v : Bool)
    → (entry (entries [] (set_prov ps k v)) k ≡ (if has_provider ps k then some v else none))
      × ((i : Str)
          → eqs k i ≡ false
          → entry (entries [] (set_prov ps k v)) i ≡ entry (entries [] ps) i)
unfolding entry
entries-set_prov ps k v = (
  entry-entries (set_prov ps k v) [] k ∙ switch-set_same ps none k v,
  λ i h.
      entry-entries (set_prov ps k v) [] i
      ∙ (switch-set ps none k i v h ∙ sym (entry-entries ps [] i)),
)
