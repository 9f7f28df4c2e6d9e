-- ===== src/Store/Messages/Delivery.antt =====
-- What a device is still to receive after an acknowledgement or a new message
-- (internal/store/messages.go).
use tinypanel_hub.Prelude.{
  String, List, [], ◌∷◌, map, ℤ, Bool, false, not, ◌&&◌, ◌==◌, eq_string, eq_int, filter, ◌≡◌, refl,
  ap, ◌∙◌, arith, Bool-cases, eq_iff, inl, inr,
}
use tinypanel_hub.Domain.{Message, Time, message_status_acked}
use tinypanel_hub.Store.State.{FileStore, Env}
use tinypanel_hub.Store.Messages.{
  is_pending, mark_acked, ack_device_messages, pending_device_messages,
}
use tinypanel_hub.Store.Messages.Listing.{limited, pending_device_messages_lem}
use tinypanel_hub.Store.Messages.Inbox.{HasStatus, IsInbox}
use tinypanel_hub.Store.Messages.Ack.{is_hit, ack_one, ack_device_messages_lem}

pub ack_one-id :
    (now : Time) (device_id : String) (ids : List ℤ) (m : Message)
    → (ack_one now device_id ids m).id ≡ m.id
unfolding mark_acked
ack_one-id now device_id ids m = ground arith

mark_acked-status : (now : Time) (m : Message) → (mark_acked now m).status ≡ message_status_acked
unfolding mark_acked
mark_acked-status now m = ground (arith, eq_iff m.status message_status_acked)

mark_acked-HasStatus : (now : Time) (m : Message) → HasStatus m → HasStatus (mark_acked now m)
unfolding mark_acked
mark_acked-HasStatus now m h = elim (Bool-cases (m.status == message_status_acked)) [
  | inl e ↦ rw e h
  | inr e ↦ rw e (inr (refl, (now, refl)))
]

pub ack_one-HasStatus :
    (now : Time) (device_id : String) (ids : List ℤ) (m : Message)
    → HasStatus m
    → HasStatus (ack_one now device_id ids m)
ack_one-HasStatus now device_id ids m h = elim (Bool-cases (is_hit device_id ids m)) [
  | inl e ↦ rw e (mark_acked-HasStatus now m h)
  | inr e ↦ rw e h
]

-- Still to be delivered after the acknowledgement.
abbrev pub is_left : String → List ℤ → String → Message → Bool
is_left device_id ids other m = is_pending other m && not (is_hit device_id ids m)

mark_acked-pending :
    (now : Time) (other : String) (m : Message) → is_pending other (mark_acked now m) ≡ false
mark_acked-pending now other m = rw (mark_acked-status now m) (ground arith)

filter-map-ack_one :
    (now : Time) (device_id : String) (ids : List ℤ) (other : String) (ms : List Message)
    → filter (is_pending other) (map (ack_one now device_id ids) ms)
      ≡ filter (is_left device_id ids other) ms
filter-map-ack_one now device_id ids other [] = refl
filter-map-ack_one now device_id ids other (m ∷ ms) = elim (Bool-cases (is_hit device_id ids m)) [
  | inl e ↦
      rw (e, mark_acked-pending now other m)
        (ground (arith, filter-map-ack_one now device_id ids other ms))
  | inr e ↦ rw e (ground (arith, filter-map-ack_one now device_id ids other ms))
]

-- After an acknowledgement the device is sent, of the messages that were pending, those that were
-- not acknowledged, and every other device is sent what it would have been sent before.
pub ack-pending :
    (env : Env) (device_id : String) (ids : List ℤ) (s : FileStore) (other : String) (limit : ℤ)
    → IsInbox s.contents.next_message_id s.contents.messages
    → pending_device_messages other limit (ack_device_messages env device_id ids s).0
      ≡ limited limit (filter (is_left device_id ids other) s.contents.messages)
ack-pending env device_id ids s other limit h =
    pending_device_messages_lem other limit _
    ∙ ap (λ ms. limited limit (filter (is_pending other) ms))
        (ack_device_messages_lem env device_id ids s h).0
    ∙ ap (limited limit) (filter-map-ack_one env.now device_id ids other s.contents.messages)
