-- ===== src/Tests/Repo.antt =====
-- The repository view at concrete trees, pins and conversations.
use orchis_foundry.Prelude.{
  arith, true, false, some, List, [], ◌∷◌, ◌≡◌, refl, Str, codes, eqs, trim,
}
use orchis_foundry.Repo.Tree.{
  Nodes, file, dir, no_nodes, node_cons, Expanded, collect_nodes, tree_rows,
}
use orchis_foundry.Repo.Tree.Visible.{listed, shown_of, tree_rows-shown_of}
use orchis_foundry.Repo.Pins.{toggled, PinState}
use orchis_foundry.Repo.Chat.{Chat, new_chat, Event, send, type_input, replied, assistant, run}
use orchis_foundry.Repo.Chat.Dialogue.{IsDialogue, IsAnswered, run-IsDialogue}

repo : Unit {0}
unfolding run collect_nodes tree_rows toggled
repo = tt

abbrev src_nodes : Nodes
src_nodes = node_cons (file (codes "src/a.rs") (codes "a.rs")) no_nodes

abbrev tree : Nodes
tree = node_cons (dir (codes "src") (codes "src") true src_nodes) (
    node_cons (dir (codes "docs") (codes "docs") false src_nodes)
      (node_cons (file (codes "README.md") (codes "README.md")) no_nodes))

abbrev at_first : Expanded
at_first = collect_nodes tree []

initially_expanded : at_first ≡ (codes "src", true) ∷ []
unfolding repo
initially_expanded = refl

abbrev no_pins : List Str
no_pins = []

tree_rows-shown_of_example :
    tree_rows at_first (codes "README.md") no_pins tree 0
    ≡ shown_of at_first
        (codes "README.md")
        no_pins
        (listed at_first (codes "README.md") no_pins tree [] 0)
tree_rows-shown_of_example = tree_rows-shown_of at_first (codes "README.md") no_pins tree 0

abbrev pins : List Str
pins = codes "a" ∷ codes "b" ∷ []

abbrev pin_state : PinState
pin_state = record { repo = codes "kelp/atlas"; pins = pins; store = [] }

abbrev asking : Chat
asking = record new_chat { input = codes " why? " }

question : eqs (trim asking.input) [] ≡ false
unfolding eqs trim
question = refl

abbrev talk : List Event
talk =
    send
    ∷ replied (some (record { chat_id = 7; message = codes "so" }))
    ∷ type_input (codes "ok")
    ∷ send
    ∷ []

talk-IsAnswered : IsAnswered no_pins 0 asking talk
unfolding repo
talk-IsAnswered = (tt, (omega arith, (tt, (tt, tt))))

run-IsDialogue_example : IsDialogue assistant (run no_pins asking talk).0.messages
run-IsDialogue_example = run-IsDialogue no_pins talk asking refl talk-IsAnswered tt
