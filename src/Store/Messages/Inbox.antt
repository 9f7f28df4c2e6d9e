-- ===== src/Store/Messages/Inbox.antt =====
-- The invariant of the inbox of internal/store/messages.go, and what an added message does.
use tinypanel_hub.Prelude.{
  ◌-◌, ◌≤◌, List, [], ◌∷◌, ◌++◌, none, some, ℤ, eq_string, eq_int, ltb, succ_int64, length, ◌≡◌,
  arith, All, Pairwise, All-append, All-drop, All-mono, Pairwise-append, Pairwise-drop, Bool-cases,
  ◌⊎◌, inl, inr, ◌<ℤ◌, int64_max, succ_int64_parts, lt-succ_int64, length-drop,
}
use tinypanel_hub.Domain.{Message, Time, message_status_pending, message_status_acked}
use tinypanel_hub.Store.State.{StateData}
use tinypanel_hub.Store.Messages.{max_messages, trim_messages, push_message}

-- A message is pending with no time of acknowledgement, or acked with one.
abbrev pub HasStatus : Message → Type 0
HasStatus m =
    ((m.status ≡ message_status_pending) × (m.acked_at ≡ none))
    ⊎ ((m.status ≡ message_status_acked) × ((t : Time) × (m.acked_at ≡ some t)))

-- At most 100 messages, with increasing identifiers below the next one.
pub record IsInbox (next : ℤ) (ms : List Message) : Type 0 where
  pub within : length ms ≤ max_messages
  pub increasing : Pairwise (λ (a b : Message). a.id <ℤ b.id) ms
  pub below : All (λ (m : Message). m.id <ℤ next) ms
  pub statuses : All HasStatus ms

length-trim_messages : (ms : List Message) → length (trim_messages ms) ≤ max_messages
unfolding trim_messages
length-trim_messages ms = ground (arith, length-drop (length ms - max_messages) ms)

module _ (P : Message → Type 0) where
  pub All-trim_messages : (ms : List Message) → All P ms → All P (trim_messages ms)
  unfolding trim_messages
  All-trim_messages ms h = elim (Bool-cases (ltb max_messages (length ms))) [
    | inl e ↦ rw e (All-drop P (length ms - max_messages) ms h)
    | inr e ↦ rw e h
  ]

Pairwise-trim_messages :
    (R : Message → Message → Type 0) (ms : List Message)
    → Pairwise R ms
    → Pairwise R (trim_messages ms)
unfolding trim_messages
Pairwise-trim_messages R ms h = elim (Bool-cases (ltb max_messages (length ms))) [
  | inl e ↦ rw e (Pairwise-drop R (length ms - max_messages) ms h)
  | inr e ↦ rw e h
]

-- Adding the next message keeps the inbox well-formed, while the identifiers do not overflow.
pub push_message-IsInbox :
    (m : Message) (d : StateData)
    → m.id ≡ d.next_message_id
    → HasStatus m
    → d.next_message_id <ℤ int64_max
    → IsInbox d.next_message_id d.messages
    → IsInbox (push_message m d).next_message_id (push_message m d).messages
unfolding push_message
push_message-IsInbox m d e status room h = record {
  within = length-trim_messages (d.messages ++ m ∷ []);
  increasing = Pairwise-trim_messages _ _ (
      Pairwise-append (λ (a b : Message). a.id <ℤ b.id) d.messages m h.increasing
        (All-mono (λ (a : Message). a.id <ℤ d.next_message_id) (λ (a : Message). a.id <ℤ m.id)
          d.messages (λ a q. rw e q) h.below));
  below = All-trim_messages _ _ (
      All-append _ d.messages (m ∷ [])
        (All-mono (λ (a : Message). a.id <ℤ d.next_message_id)
          (λ (a : Message). a.id <ℤ succ_int64 d.next_message_id) d.messages
          (λ a q. omega (arith, succ_int64_parts d.next_message_id room)) h.below)
        (rw e (lt-succ_int64 d.next_message_id room), tt));
  statuses = All-trim_messages _ _ (All-append _ d.messages (m ∷ []) h.statuses (status, tt));
}
