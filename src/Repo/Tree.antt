-- ===== src/Repo/Tree.antt =====
-- The file tree: `collectInitialExpanded`, `FileTree` and `toggle`. The object `expanded` is a list of
-- entries in which the first one for a path counts.
pub mod Visible
use orchis_foundry.Prelude.{
  includes, ℕ, zero, suc, ◌+◌, ◌*◌, Bool, true, false, not, ◌&&◌, Option, none, some, List, [], ◌∷◌,
  ◌++◌, if◌then◌else◌, Str, codes, eqs,
}

-- A file and a directory have a path and a name, a directory also its flag `expanded`. A directory may
-- come without the field `children`.
mutual
  pub data Node : Type 0 where
    file : Str → Str → Node
    bare_dir : Str → Str → Bool → Node
    dir : Str → Str → Bool → Nodes → Node

  pub data Nodes : Type 0 where
    no_nodes : Nodes
    node_cons : Node → Nodes → Nodes

abbrev pub Expanded : Type 0
Expanded = List (Str × Bool)

-- What every object has from `Object.prototype`.
abbrev object_names : List Str
object_names =
    codes "constructor"
    ∷ codes "hasOwnProperty"
    ∷ codes "isPrototypeOf"
    ∷ codes "propertyIsEnumerable"
    ∷ codes "toLocaleString"
    ∷ codes "toString"
    ∷ codes "valueOf"
    ∷ codes "__proto__"
    ∷ codes "__defineGetter__"
    ∷ codes "__defineSetter__"
    ∷ codes "__lookupGetter__"
    ∷ codes "__lookupSetter__"
    ∷ []

-- `expanded[n.path]`: a path without an entry is read from the prototype.
pub is_expanded : Expanded → Str → Bool
unfolding eqs includes
is_expanded [] path = includes object_names path
is_expanded (e ∷ es) path = if eqs e.0 path then e.1 else is_expanded es path

-- `setExpanded(e => ({ ...e, [path]: !e[path] }))`.
pub toggle : Expanded → Str → Expanded
unfolding is_expanded
toggle es path = (path, not (is_expanded es path)) ∷ es

-- `collectInitialExpanded`, with the object that it adds to.
unfoldable mutual
  collect_node : Node → Expanded → Expanded
  collect_node (file path name) acc = acc
  collect_node (bare_dir path name e) acc = if e then (path, true) ∷ acc else acc
  collect_node (dir path name false ns) acc = acc
  collect_node (dir path name true ns) acc = collect_nodes ns ((path, true) ∷ acc)

  pub collect_nodes : Nodes → Expanded → Expanded
  collect_nodes no_nodes acc = acc
  collect_nodes (node_cons n ns) acc = collect_nodes ns (collect_node n acc)

-- A row of the tree.
pub record Row : Type 0 where
  pub path : Str
  pub name : Str
  is_dir : Bool
  pub depth : ℕ
  is_active : Bool
  is_pinned : Bool

module _ (expanded : Expanded) (active : Str) (pins : List Str) where
  abbrev pub file_row : Str → Str → ℕ → Row
  file_row path name depth = record {
    path = path;
    name = name;
    is_dir = false;
    depth = depth;
    is_active = eqs active path;
    is_pinned = includes pins path;
  }

  abbrev pub dir_row : Str → Str → ℕ → Row
  dir_row path name depth = record {
    path = path;
    name = name;
    is_dir = true;
    depth = depth;
    is_active = false;
    is_pinned = includes pins path;
  }

  unfoldable mutual
    unfolding is_expanded includes eqs

    pub node_rows : Node → ℕ → List Row
    node_rows (file path name) depth = file_row path name depth ∷ []
    node_rows (bare_dir path name e) depth = dir_row path name depth ∷ []
    node_rows (dir path name e ns) depth =
        dir_row path name depth
        ∷ (let inner = tree_rows ns (suc depth) in if is_expanded expanded path then inner else [])

    pub tree_rows : Nodes → ℕ → List Row
    tree_rows no_nodes depth = []
    tree_rows (node_cons n ns) depth = node_rows n depth ++ tree_rows ns depth
