-- ===== src/Tests/Sidebar.antt =====
-- The inbox at concrete events.
use orchis_foundry.Prelude.{false, some, List, [], ◌∷◌, ◌≤◌, ◌≡◌, refl, inl, Str, codes, session}
use orchis_foundry.Api.{done}
use orchis_foundry.Sidebar.{
  Item, Bell, Event, got_inbox, notified, toggle, dismiss, opened, stored, unread, add_keys, step,
}
use orchis_foundry.Sidebar.Seen.{session-reopened, toggle-unread}

bells : Unit {0}
unfolding session step unread add_keys
bells = tt

abbrev item : Str → Item
item t = record { title = t; repo = codes "me/a"; detail = [] }

abbrev bell : Bell
bell = record { items = item (codes "review") ∷ []; is_open = false; seen = [] }

toggle-unread_example :
    unread (record (session step (step bell toggle).0 (dismiss ∷ notified ∷ [])).0 {
      items = item (codes "review") ∷ [];
    })
    ≡ 0
toggle-unread_example =
    toggle-unread bell (dismiss ∷ notified ∷ []) (item (codes "review") ∷ []) refl (inl refl, tt)

abbrev inbox_events : List Event
inbox_events = got_inbox (done (some (item (codes "review") ∷ []))) ∷ toggle ∷ []

abbrev both : List Item
both = item (codes "merge") ∷ item (codes "review") ∷ []

session-reopened_example :
    (unread (record (session step (opened []) inbox_events).0 { items = both })
      ≤ unread (record (opened (stored [] (session step (opened []) inbox_events).1 (false ∷ []))) {
        items = both;
      }))
    × (unread (record (opened (stored [] (session step (opened []) inbox_events).1 [])) {
      items = both;
    })
        ≡ unread (record (session step (opened []) inbox_events).0 { items = both }))
session-reopened_example = session-reopened [] inbox_events both (false ∷ [])

-- An item that comes while the inbox is open counts as unread, though it is shown.
shown_unread :
    unread
      (session step (opened []) (
        got_inbox (done (some (item (codes "review") ∷ [])))
        ∷ toggle
        ∷ got_inbox (done (some (item (codes "merge") ∷ item (codes "review") ∷ [])))
        ∷ dismiss
        ∷ [])).0
    ≡ 1
unfolding bells
shown_unread = refl
