-- ===== src/Repo/Tree/Visible.antt =====
-- Which rows of the tree are shown.
use orchis_foundry.Prelude.{
  ℕ, suc, Bool, true, false, not, ◌&&◌, List, [], ◌∷◌, ◌++◌, map, filter, if◌then◌else◌, ◌≡◌, ◌∙◌,
  refl, sym, ap, arith, inl, inr, Bool-cases, Str, eqs, eqs_iff, eqs_refl,
}
use orchis_foundry.Repo.Tree.{
  Node, Nodes, file, bare_dir, dir, no_nodes, node_cons, Expanded, is_expanded, toggle, Row,
  file_row, dir_row, node_rows, tree_rows,
}

module _ (expanded : Expanded) (active : Str) (pins : List Str) where
  -- The rows of all nodes, each with the paths of the directories above it, the nearest first.
  mutual
    listed_node : Node → List Str → ℕ → List (List Str × Row)
    listed_node (file path name) above depth =
        (above, file_row expanded active pins path name depth) ∷ []
    listed_node (bare_dir path name e) above depth =
        (above, dir_row expanded active pins path name depth) ∷ []
    listed_node (dir path name e ns) above depth =
        (above, dir_row expanded active pins path name depth) ∷ listed ns (path ∷ above) (suc depth)

    pub listed : Nodes → List Str → ℕ → List (List Str × Row)
    listed no_nodes above depth = []
    listed (node_cons n ns) above depth = listed_node n above depth ++ listed ns above depth

  abbrev all_expanded : List Str → Bool
  all_expanded [] = true
  all_expanded (p ∷ ps) = is_expanded expanded p && all_expanded ps

  abbrev pub shown_of : List (List Str × Row) → List Row
  shown_of l = map (λ e. e.1) (filter (λ e. all_expanded e.0) l)

  shown_of-append : (l r : List (List Str × Row)) → shown_of (l ++ r) ≡ shown_of l ++ shown_of r
  shown_of-append [] r = refl
  shown_of-append (e ∷ l) r = elim (Bool-cases (all_expanded e.0)) [
    | inl t ↦ rw t (ap (e.1 ∷◌) (shown_of-append l r))
    | inr f ↦ rw f (shown_of-append l r)
  ]

  one_shown :
      (above : List Str) (r : Row)
      → shown_of ((above, r) ∷ []) ≡ (if all_expanded above then r ∷ [] else [])
  one_shown above r = ground arith

  joined :
      (t : Bool) (l r : List Row)
      → (if t then l else []) ++ (if t then r else []) ≡ (if t then l ++ r else [])
  joined true l r = refl
  joined false l r = refl

  -- A directory, with the rows below it.
  dir_joined :
      (t u : Bool) (r : Row) (l : List Row)
      → (if t then r ∷ [] else []) ++ (if u && t then l else [])
        ≡ (if t then r ∷ (if u then l else []) else [])
  dir_joined true true r l = refl
  dir_joined true false r l = refl
  dir_joined false true r l = refl
  dir_joined false false r l = refl

  mutual
    unfolding node_rows listed

    node_shown :
        (n : Node) (above : List Str) (depth : ℕ)
        → shown_of (listed_node n above depth)
          ≡ (if all_expanded above then node_rows expanded active pins n depth else [])
    node_shown (file path name) above depth = one_shown above _
    node_shown (bare_dir path name e) above depth = one_shown above _
    node_shown (dir path name e ns) above depth =
        shown_of-append ((above, dir_row expanded active pins path name depth) ∷ []) _
        ∙ ap (λ l. l ++ shown_of (listed ns (path ∷ above) (suc depth))) (one_shown above _)
        ∙ ap
            (λ l.
              (if all_expanded above then dir_row expanded active pins path name depth ∷ [] else [])
              ++ l)
            (nodes_shown ns (path ∷ above) (suc depth))
        ∙ dir_joined (all_expanded above) (is_expanded expanded path) _ _

    nodes_shown :
        (ns : Nodes) (above : List Str) (depth : ℕ)
        → shown_of (listed ns above depth)
          ≡ (if all_expanded above then tree_rows expanded active pins ns depth else [])
    nodes_shown no_nodes above depth = ground arith
    nodes_shown (node_cons n ns) above depth =
        shown_of-append (listed_node n above depth) (listed ns above depth)
        ∙ ap (λ l. l ++ shown_of (listed ns above depth)) (node_shown n above depth)
        ∙ ap (λ l. (if all_expanded above then node_rows expanded active pins n depth else []) ++ l)
            (nodes_shown ns above depth)
        ∙ joined (all_expanded above) _ _

  -- The rows that are shown are those of the nodes whose directories above are all expanded, in the
  -- order of the tree.
  pub tree_rows-shown_of :
      (ns : Nodes) (depth : ℕ)
      → tree_rows expanded active pins ns depth ≡ shown_of (listed ns [] depth)
  tree_rows-shown_of ns depth = sym (nodes_shown ns [] depth)

-- Two states of the tree in which the same directories are expanded.
module _ (es fs : Expanded) (same : (p : Str) → is_expanded es p ≡ is_expanded fs p) (active : Str)
    (pins : List Str) where
  mutual
    unfolding node_rows

    node_rows_same :
        (n : Node) (depth : ℕ) → node_rows es active pins n depth ≡ node_rows fs active pins n depth
    node_rows_same (file path name) depth = refl
    node_rows_same (bare_dir path name e) depth = refl
    node_rows_same (dir path name e ns) depth = rw (same path) (
        ap (λ l. dir_row es active pins path name depth ∷ (if is_expanded fs path then l else []))
          (tree_rows_same ns (suc depth)))

    tree_rows_same :
        (ns : Nodes) (depth : ℕ)
        → tree_rows es active pins ns depth ≡ tree_rows fs active pins ns depth
    tree_rows_same no_nodes depth = refl
    tree_rows_same (node_cons n ns) depth =
        ap (λ l. l ++ tree_rows es active pins ns depth) (node_rows_same n depth)
        ∙ ap (λ l. node_rows fs active pins n depth ++ l) (tree_rows_same ns depth)

not-not : (b : Bool) → not (not b) ≡ b
not-not true = refl
not-not false = refl

toggle_twice :
    (es : Expanded) (path p : Str) → is_expanded (toggle (toggle es path) path) p ≡ is_expanded es p
unfolding toggle
toggle_twice es path p = elim (Bool-cases (eqs path p)) [
  | inl t ↦
      rw (t, eqs_refl path)
        (not-not (is_expanded es path) ∙ ap (is_expanded es) ((eqs_iff path p).0 t))
  | inr f ↦ rw f refl
]

-- A directory that is clicked twice leaves the tree as it was.
tree_rows-toggle :
    (es : Expanded) (active : Str) (pins : List Str) (path : Str) (ns : Nodes) (depth : ℕ)
    → tree_rows (toggle (toggle es path) path) active pins ns depth
      ≡ tree_rows es active pins ns depth
tree_rows-toggle es active pins path ns depth =
    tree_rows_same (toggle (toggle es path) path) es (toggle_twice es path) active pins ns depth
