-- ===== src/Tests/StoreTests.antt =====
-- The store of internal/store at concrete inputs.
use tinypanel_hub.Prelude.{
  [], ◌∷◌, map, reverse, none, some, pos, not, ◌&&◌, ◌==◌, eq_string, eq_int, filter, ◌≡◌, refl,
  arith, ne_of_==,
}
use tinypanel_hub.Domain.{Message, TodoPatch}
use tinypanel_hub.Store.Messages.{
  pending_device_messages, device_messages, ack_device_messages, is_pending,
}
use tinypanel_hub.Store.Messages.Listing.{limited, device_messages_lem, pending_device_messages_lem}
use tinypanel_hub.Store.Messages.Ack.{ack_one, is_hit, has_message, ack_device_messages_lem}
use tinypanel_hub.Store.Messages.Delivery.{is_left, ack-pending}
use tinypanel_hub.Store.Todos.{
  todo, todos, add_todo, update_todo, delete_todo, patch_todo, conflict, TodoDelete,
}
use tinypanel_hub.Store.Todos.Versions.{no_lost_update}
use tinypanel_hub.Store.Todos.Isolation.{todos_isolated}
use tinypanel_hub.Tests.Fixtures.{alice, bob, chore, env, store, sample-IsInbox}

abbrev no_change : TodoPatch
no_change = record { text = none; status = some (pos 2) }

device_messages_lem_example :
    device_messages alice "panel" (pos 1) store
    ≡ limited (pos 1) (
        filter
          (λ m. m.owner_id == alice && m.device_id == "panel")
          (reverse store.contents.messages))
device_messages_lem_example = device_messages_lem alice "panel" (pos 1) store

pending_device_messages_lem_example :
    pending_device_messages "panel" (pos 10) store
    ≡ limited (pos 10) (filter (is_pending "panel") store.contents.messages)
pending_device_messages_lem_example = pending_device_messages_lem "panel" (pos 10) store

ack_device_messages_lem_example :
    let (s', acked, missing, e) = ack_device_messages env "panel" (pos 2 ∷ pos 9 ∷ []) store in
    (s'.contents.messages ≡ map (ack_one 100 "panel" (pos 2 ∷ pos 9 ∷ [])) store.contents.messages)
    × (acked
        ≡ map
            (λ (m : Message). m.id)
            (filter (is_hit "panel" (pos 2 ∷ pos 9 ∷ [])) store.contents.messages))
    × (missing
        ≡ filter (λ id. not (has_message "panel" store.contents.messages id)) (pos 2 ∷ pos 9 ∷ []))
ack_device_messages_lem_example =
    ack_device_messages_lem env "panel" (pos 2 ∷ pos 9 ∷ []) store sample-IsInbox

ack-pending_example :
    pending_device_messages "panel" (pos 5) (ack_device_messages env "panel" (pos 2 ∷ []) store).0
    ≡ limited (pos 5) (filter (is_left "panel" (pos 2 ∷ []) "panel") store.contents.messages)
ack-pending_example = ack-pending env "panel" (pos 2 ∷ []) store "panel" (pos 5) sample-IsInbox

found_chore : todo alice (pos 1) store ≡ some chore
unfolding todo
found_chore = refl

no_lost_update_example :
    let s' = (update_todo env alice (pos 1) (pos 1) no_change store).0 in
    (update_todo env alice (pos 1) (pos 1) no_change s'
      ≡ (s', conflict (patch_todo 100 no_change chore)))
    × (delete_todo env alice (pos 1) (pos 1) s' ≡ (s', TodoDelete.conflict))
no_lost_update_example =
    no_lost_update env env alice (pos 1) no_change no_change store found_chore (omega arith)

todos_isolated_example :
    (todos alice (add_todo env bob "buy" (pos 0) store).0 ≡ todos alice store)
    × (todos alice (update_todo env bob (pos 1) (pos 1) no_change store).0 ≡ todos alice store)
    × (todos alice (delete_todo env bob (pos 1) (pos 1) store).0 ≡ todos alice store)
todos_isolated_example =
    todos_isolated env bob alice (pos 1) (pos 1) no_change "buy" (pos 0) store
      (ne_of_== bob alice refl)
