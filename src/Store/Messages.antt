-- ===== src/Store/Messages.antt =====
-- internal/store/messages.go: the inbox of messages. `Snapshot` is in Store/Telemetry.
pub mod Listing
pub mod Inbox
pub mod Ack
pub mod Delivery
use tinypanel_hub.Prelude.{
  ℕ, ◌+◌, ◌-◌, String, List, [], ◌∷◌, ◌++◌, reverse, Option, none, some, ℤ, pos, Bool, true, false,
  ◌&&◌, if◌then◌else◌, ◌==◌, ◌!=◌, eq_string, eq_int, ltb, ltb_ℤ, leb_ℤ, succ_int64, length, drop,
  filter, any,
}
use tinypanel_hub.Domain.{
  Message, Time, message_priority_normal, message_status_pending, message_status_acked,
}
use tinypanel_hub.Store.State.{Error, StateData, FileStore, Env}
use tinypanel_hub.Store.Commit.{commit}

abbrev pub max_messages : ℕ
max_messages = 100

-- `limit > 0 && len(out) >= limit`
abbrev pub reached : {A : Type 0} → ℤ → List A → Bool
reached limit out = ltb_ℤ (pos 0) limit && leb_ℤ limit (pos (length out))

-- The loop with `continue`, `append` and `break` that the listing methods share: it appends to
-- `out` the entries that pass the test, until the limit is reached.
unfoldable pub collect : {A : Type 0} → (A → Bool) → ℤ → List A → List A → List A
collect keep limit out [] = out
collect keep limit out (x ∷ xs) = elim (keep x) [
  | false ↦ collect keep limit out xs
  | true ↦ elim (reached limit (out ++ x ∷ [])) [
    | true ↦ out ++ x ∷ []
    | false ↦ collect keep limit (out ++ x ∷ []) xs
  ]
]

-- `ownerMessagesLocked`, from the newest
unfoldable pub owner_messages : String → FileStore → List Message
owner_messages owner_id s = filter (λ m. m.owner_id == owner_id) (reverse s.contents.messages)

unfoldable pub device_messages : String → String → ℤ → FileStore → List Message
unfolding collect
device_messages owner_id device_id limit s =
    collect (λ m. m.owner_id == owner_id && m.device_id == device_id) limit []
      (reverse s.contents.messages)

abbrev pub is_pending : String → Message → Bool
is_pending device_id m = m.device_id == device_id && m.status == message_status_pending

unfoldable pub pending_device_messages : String → ℤ → FileStore → List Message
unfolding collect
pending_device_messages device_id limit s =
    collect (is_pending device_id) limit [] s.contents.messages

-- The message that `AddDeviceMessage` builds.
unfoldable pub new_message : Time → ℤ → String → String → String → String → String → Message
new_message now id owner_id device_id author_id body priority = record {
  id = id;
  owner_id = owner_id;
  device_id = device_id;
  author_id = author_id;
  body = body;
  priority = if priority == "" then message_priority_normal else priority;
  status = message_status_pending;
  created_at = now;
  acked_at = none;
}

-- Only the last 100 messages are kept, whoever owns them.
unfoldable pub trim_messages : List Message → List Message
trim_messages ms = if ltb max_messages (length ms) then drop (length ms - max_messages) ms else ms

unfoldable pub push_message : Message → StateData → StateData
unfolding trim_messages
push_message m d = record d {
  next_message_id = succ_int64 d.next_message_id;
  messages = trim_messages (d.messages ++ m ∷ []);
}

unfoldable pub add_device_message :
    Env
    → String
    → String
    → String
    → String
    → String
    → FileStore
    → FileStore × Message × Option Error
add_device_message env owner_id device_id author_id body priority s =
    let id = s.contents.next_message_id in
    let m = new_message env.now id owner_id device_id author_id body priority in
    let (s', e) = commit env (push_message m s.contents) s in (s', m, e)

-- A `map[int64]bool` whose values are all true: the list of its keys.
abbrev pub wanted : ℤ → List ℤ → Bool
wanted id want = any (λ i. i == id) want

-- `delete(want, id)`
abbrev pub delete_key : ℤ → List ℤ → List ℤ
delete_key id want = filter (λ i. i != id) want

unfoldable pub mark_acked : Time → Message → Message
mark_acked now m =
    if m.status != message_status_acked
    then record m { status = message_status_acked; acked_at = some now }
    else m

-- The loop of `AckDeviceMessages` with its variables `want` and `acked`.
unfoldable pub ack_loop :
    Time → String → List ℤ → List ℤ → List Message → List Message × List ℤ × List ℤ
unfolding mark_acked
ack_loop now device_id want acked [] = ([], acked, want)
ack_loop now device_id want acked (m ∷ ms) =
    let hit = m.device_id == device_id && wanted m.id want in
    let (ms', acked', want') =
      ack_loop now device_id (if hit then delete_key m.id want else want)
        (if hit then acked ++ m.id ∷ [] else acked) ms in
    ((if hit then mark_acked now m else m) ∷ ms', acked', want')

-- Acked and missing identifiers, and the error of the save.
unfoldable pub ack_device_messages :
    Env → String → List ℤ → FileStore → FileStore × List ℤ × List ℤ × Option Error
ack_device_messages env device_id message_ids s =
    let (ms, acked, want) = ack_loop env.now device_id message_ids [] s.contents.messages in
    let (s', e) = commit env (record (s.contents) { messages = ms }) s in
    (s', acked, filter (λ id. wanted id want) message_ids, e)
