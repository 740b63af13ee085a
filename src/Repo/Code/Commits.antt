-- ===== src/Repo/Code/Commits.antt =====
-- The commits that the editor makes.
use orchis_foundry.Prelude.{
  ◌⊎◌, sym, starts_with, codes, Bool, true, false, ◌&&◌, none, some, List, [], ◌∷◌, ◌++◌, ◌≡◌, ◌≢◌,
  ◌∙◌, refl, ap, inl, inr, arith, Bool-cases, Str, eqs, eqs_iff, trim, All, All-append,
}
use orchis_foundry.Repo.Code.{
  drafted_msg, draft_failed, start_edit, cancel_edit, CodeView, Request, post_commit, Committed,
  Event, show_path, got_blob, toggle_blame, toggle_outline, commit, generate, committed, drafted,
  load, commit_note, commit_failed, branch_of, can_commit, step, run,
}

module _ (can_write : Bool) (def_branch : Str) where
  -- A commit is made by someone who may write, to a branch with a name, with a message.
  abbrev pub IsAllowed : Request → Type 0
  IsAllowed (post_commit branch msg path content) =
      (can_write ≡ true) × (branch ≢ []) × (eqs (trim msg) [] ≡ false)
  IsAllowed _ = Unit

  -- Only who may write is in the editor.
  abbrev pub IsEditor : CodeView → Type 0
  IsEditor v = v.editing ≡ true → can_write ≡ true

  IsEditor-step :
      (v : CodeView) (e : Event) → IsEditor v → IsEditor (step can_write def_branch v e).0
  unfolding step load
  IsEditor-step v e h b = ground (arith, h)

  not_blank : (s : Str) → eqs s [] ≡ false → s ≢ []
  not_blank s f e = cc (f, (eqs_iff s []).1 e)

  can_commit_lem :
      (v : CodeView)
      → can_commit can_write def_branch v ≡ true
      → (v.editing ≡ true)
        × (eqs (trim v.msg) [] ≡ false)
        × ((v.to_new && eqs (trim v.new_branch) []) ≡ false)
  can_commit_lem v h = (ground arith, ground arith, ground arith)

  branch_of_named :
      (v : CodeView)
      → def_branch ≢ []
      → (v.to_new && eqs (trim v.new_branch) []) ≡ false
      → branch_of can_write def_branch v ≢ []
  branch_of_named v named h = elim (Bool-cases v.to_new) [
    | inl t ↦ rw t (not_blank (trim v.new_branch) (rw t at h))
    | inr f ↦ rw f named
  ]

  IsAllowed-load : (v : CodeView) → All IsAllowed (load v).1
  unfolding load
  IsAllowed-load v = ground arith

  IsAllowed-step :
      (v : CodeView) (e : Event)
      → def_branch ≢ []
      → IsEditor v
      → All IsAllowed (step can_write def_branch v e).1
  unfolding step
  IsAllowed-step v commit named h = elim (Bool-cases (can_commit can_write def_branch v)) [
    | inl t ↦
        let (editing, msg, new) = can_commit_lem v t in
        rw t ((h editing, branch_of_named v named new, msg), tt)
    | inr f ↦ rw f tt
  ]
  IsAllowed-step v (committed false (some r)) named h =
      IsAllowed-load (record v { busy = false; editing = false; note = commit_note r })
  IsAllowed-step v (committed true (some r)) named h = tt
  IsAllowed-step v (committed new none) named h = tt
  IsAllowed-step v (show_path path) named h = elim (Bool-cases (eqs path v.path)) [
    | inl t ↦ rw t tt
    | inr f ↦ rw f (IsAllowed-load (record v { path = path }))
  ]
  IsAllowed-step v toggle_blame named h = ground arith
  IsAllowed-step v toggle_outline named h = ground arith
  IsAllowed-step v generate named h = ground arith
  IsAllowed-step v (got_blob g none) named h = tt
  IsAllowed-step v (got_blob g (some b)) named h = tt
  IsAllowed-step v (drafted none) named h = tt
  IsAllowed-step v (drafted (some m)) named h = tt
  IsAllowed-step v _ named h = tt

  -- In a session that begins outside of the editor, every commit that is posted is by someone who may
  -- write, to a branch with a name, with a message that is not blank; the default branch has a name.
  pub run-IsAllowed :
      (es : List Event) (v : CodeView)
      → def_branch ≢ []
      → IsEditor v
      → All IsAllowed (run can_write def_branch v es).1
  unfolding run
  run-IsAllowed [] v named h = tt
  run-IsAllowed (e ∷ es) v named h =
      All-append IsAllowed (step can_write def_branch v e).1 _ (IsAllowed-step v e named h)
        (run-IsAllowed es (step can_write def_branch v e).0 named (IsEditor-step v e h))

-- The answer that brings the confirmation that is shown for `r`.
abbrev pub Confirms : Committed → Event → Type 0
Confirms r (committed true (some q)) = commit_note q ≡ commit_note r
Confirms r _ = ⊥

abbrev confirmation : Str → Bool
confirmation = starts_with (codes "Committed ")

-- No other note reads like a confirmation.
not_confirmed :
    (r : Committed)
    → ([] ≢ commit_note r) × (commit_failed ≢ commit_note r) × (draft_failed ≢ commit_note r)
unfolding starts_with
not_confirmed r = (
  λ e. (let x : false ≡ true = ap confirmation e in cc x),
  λ e. (let x : false ≡ true = ap confirmation e in cc x),
  λ e. (let x : false ≡ true = ap confirmation e in cc x),
)

module _ (can_write : Bool) (def_branch : Str) where
  load-note : (v : CodeView) → (load v).0.note ≡ []
  unfolding load
  load-note v = refl

  drafted-note : (v : CodeView) (m : Str) → (drafted_msg v m).note ≡ v.note
  drafted-note v m = ground arith

  step-confirmed :
      (v : CodeView) (e : Event) (r : Committed)
      → (step can_write def_branch v e).0.note ≡ commit_note r
      → (v.note ≡ commit_note r) ⊎ Confirms r e
  unfolding step
  step-confirmed v (committed true (some q)) r h = inr h
  step-confirmed v (committed false (some q)) r h = absurd ((not_confirmed r).0 h)
  step-confirmed v (committed new none) r h = absurd ((not_confirmed r).1 h)
  step-confirmed v (drafted none) r h = absurd ((not_confirmed r).2 h)
  step-confirmed v (drafted (some m)) r h = inl (sym (drafted-note v m) ∙ h)
  step-confirmed v (show_path path) r h =
      ground (arith, h, load-note (record v { path = path }), (not_confirmed r).0)
  step-confirmed v (got_blob g none) r h = inl (ground (arith, h))
  step-confirmed v (got_blob g (some b)) r h = inl (ground (arith, h))
  step-confirmed v toggle_blame r h = inl (ground (arith, h))
  step-confirmed v toggle_outline r h = inl (ground (arith, h))
  step-confirmed v start_edit r h = ground (arith, h, (not_confirmed r).0)
  step-confirmed v cancel_edit r h = inl (ground (arith, h))
  step-confirmed v commit r h = ground (arith, h, (not_confirmed r).0)
  step-confirmed v e r h = inl h

  -- Where the confirmation of a commit is shown at the end of a session, either it was shown at its start,
  -- or the answer to a commit to a new branch brought it: a commit to the default branch is never confirmed,
  -- though its answer sets the note too.
  pub run-confirmed :
      (es : List Event) (v : CodeView) (r : Committed)
      → (run can_write def_branch v es).0.note ≡ commit_note r
      → (v.note ≡ commit_note r)
        ⊎ ((before : List Event) × (e : Event) × (after : List Event) × (es ≡ before ++ e ∷ after)
            × Confirms r e)
  unfolding run
  run-confirmed [] v r h = inl h
  run-confirmed (e ∷ es) v r h = elim (run-confirmed es (step can_write def_branch v e).0 r h) [
    | inr (before, d, after, split, c) ↦ inr (e ∷ before, d, after, ap (e ∷◌) split, c)
    | inl now ↦ elim (step-confirmed v e r now) [
      | inl was ↦ inl was
      | inr c ↦ inr ([], e, es, refl, c)
    ]
  ]
