-- ===== src/Palette/Keys/Highlight.antt =====
-- The highlighted row and the row that Enter runs: the first is counted over the groups, the second
-- is an index into the filtered list.
use Prim.Native.String.{String}
use orchis_foundry.Prelude.{
  ℕ, zero, suc, true, Option, List, [], ◌∷◌, ◌++◌, ◌≡◌, ◌↔◌, inl, inr, refl, ap, Str, codes, eqs,
  trim, get_elem?, take, map, append-nil,
}
use orchis_foundry.Palette.Actions.{
  Action, Hit, Hits, static_actions, server_actions, filtered, from_hit,
}
use orchis_foundry.Palette.Groups.{groups, rows}
use orchis_foundry.Palette.Groups.Contiguous.{Follows, IsContiguous, NotIn, rows-groups_iff}

-- The row at which `runningIdx === idx`.
unfoldable pub highlighted : List Action → ℕ → Option Action
unfolding groups rows
highlighted l i = get_elem? (rows (groups l)) i

get_elem?-ext {ℓ} :
    {A : Type ℓ} (xs ys : List A) → ((i : ℕ) → get_elem? xs i ≡ get_elem? ys i) → xs ≡ ys
get_elem?-ext [] [] h = refl
get_elem?-ext [] (y ∷ ys) h = cc (h 0)
get_elem?-ext (x ∷ xs) [] h = cc (h 0)
get_elem?-ext (x ∷ xs) (y ∷ ys) h = cc (h 0, get_elem?-ext xs ys (λ i. h (suc i)))

-- Enter runs the highlighted row, at every index, exactly when the filtered list does not come back to
-- a group that it has left.
pub highlighted_iff :
    (l : List Action) → ((i : ℕ) → highlighted l i ≡ get_elem? l i) ↔ IsContiguous l
unfolding highlighted
highlighted_iff l = (
  λ h. (rows-groups_iff l).0 (get_elem?-ext (rows (groups l)) l h),
  λ c i. ap (λ r. get_elem? r i) ((rows-groups_iff l).1 c),
)

take-Follows :
    (k : ℕ) (n : Str) (left : List Str) (l : List Action)
    → Follows n left l
    → Follows n left (take k l)
take-Follows zero n left l h = tt
take-Follows (suc k) n left [] h = tt
take-Follows (suc k) n left (a ∷ l) (inl (e, h)) = inl (e, take-Follows k n left l h)
take-Follows (suc k) n left (a ∷ l) (inr (new, h)) =
    inr (new, take-Follows k a.group (left ++ n ∷ []) l h)

-- Rows of one new group, or none, behind a group.
map-Follows :
    (prefix group : String) (hs : List Hit) (n : Str) (left : List Str) (rest : List Action)
    → NotIn (codes group) (left ++ n ∷ [])
    → Follows n left rest
    → Follows (codes group) (left ++ n ∷ []) rest
    → Follows n left (map (from_hit prefix group) hs ++ rest)
map-Follows prefix group [] n left rest new h k = h
map-Follows prefix group (x ∷ hs) n left rest new h k = inr (new, go hs)
  where
    go :
        (hs : List Hit)
        → Follows (codes group) (left ++ n ∷ []) (map (from_hit prefix group) hs ++ rest)
    go [] = k
    go (y ∷ hs) = inl (refl, go hs)

take-IsContiguous : (k : ℕ) (l : List Action) → IsContiguous l → IsContiguous (take k l)
take-IsContiguous zero l h = tt
take-IsContiguous (suc k) [] h = tt
take-IsContiguous (suc k) (a ∷ l) h = take-Follows k a.group [] l h

abbrev quick : Str
quick = codes "Quick action"

abbrev go_to : Str
go_to = codes "Go to"

abbrev repositories : Str
repositories = codes "Repositories"

abbrev pulls_group : Str
pulls_group = codes "Pull requests"

abbrev files_group : Str
files_group = codes "Files"

files-Follows :
    (hs : List Hit) (n : Str) (left : List Str)
    → NotIn files_group (left ++ n ∷ [])
    → Follows n left (map (from_hit "file-" "Files") hs)
files-Follows hs n left new = rw append-nil at (map-Follows "file-" "Files" hs n left [] new tt tt)

pulls-Follows :
    (ps fs : List Hit) (n : Str) (left : List Str)
    → NotIn pulls_group (left ++ n ∷ [])
    → NotIn files_group (left ++ n ∷ [])
    → NotIn files_group ((left ++ n ∷ []) ++ pulls_group ∷ [])
    → Follows n left (map (from_hit "pr-" "Pull requests") ps ++ map (from_hit "file-" "Files") fs)
pulls-Follows ps fs n left new1 new2 new3 =
    map-Follows "pr-" "Pull requests" ps n left _ new1 (files-Follows fs n left new2)
      (files-Follows fs pulls_group (left ++ n ∷ []) new3)

server-Follows : (h : Hits) → Follows go_to (quick ∷ []) (server_actions h)
unfolding server_actions eqs
server-Follows h =
    map-Follows "repo-" "Repositories" h.repos go_to (quick ∷ []) _ (refl, (refl, tt))
      (pulls-Follows h.pulls h.files go_to (quick ∷ []) (refl, (refl, tt)) (refl, (refl, tt))
        (refl, (refl, (refl, tt))))
      (pulls-Follows h.pulls h.files repositories (quick ∷ go_to ∷ []) (refl, (refl, (refl, tt)))
        (refl, (refl, (refl, tt))) (refl, (refl, (refl, (refl, tt)))))

statics-IsContiguous :
    (rest : List Action) → Follows go_to (quick ∷ []) rest → IsContiguous (static_actions ++ rest)
unfolding eqs
statics-IsContiguous rest h = inl (
  refl,
  inl (
    refl,
    inl (refl, inr ((refl, tt), inl (refl, inl (refl, inl (refl, inl (refl, inl (refl, h))))))),
  ),
)

-- With a blank query Enter runs the row that is highlighted, whatever the server has found.
highlighted_blank :
    (lower : Str → Str) (q : Str) (h : Hits) (i : ℕ)
    → eqs (trim q) [] ≡ true
    → highlighted (filtered lower q h) i ≡ get_elem? (filtered lower q h) i
highlighted_blank lower q h i b = (highlighted_iff (filtered lower q h)).1 contiguous i
  where
    contiguous : IsContiguous (filtered lower q h)
    contiguous =
        unfold filtered in
        rw b (
          take-IsContiguous 40 (static_actions ++ server_actions h)
            (statics-IsContiguous (server_actions h) (server-Follows h)))
