-- ===== src/Store/Reachable/Messages.antt =====
-- The operations of internal/store/messages.go keep the invariant of the state.
use tinypanel_hub.Prelude.{
  ℕ, suc, ◌<◌, String, List, [], map, ℤ, eq_string, eq_int, ◌≡◌, refl, sym, ap, ◌∙◌, arith,
  All-mono, inl, ◌<ℤ◌, All-map, Pairwise-map, length-map, Pairwise-mono,
}
use tinypanel_hub.Domain.{Message, Time}
use tinypanel_hub.Store.State.{StateData, FileStore, Env}
use tinypanel_hub.Store.Commit.{commit-contents}
use tinypanel_hub.Store.Validity.{IsValid, max_steps, messages-IsValid}
use tinypanel_hub.Store.Reachable.Todos.{succ_bound}
use tinypanel_hub.Store.Messages.{
  new_message, push_message, add_device_message, ack_loop, ack_device_messages,
}
use tinypanel_hub.Store.Messages.Inbox.{HasStatus, IsInbox, push_message-IsInbox}
use tinypanel_hub.Store.Messages.Ack.{ack_one, ack_device_messages_lem}
use tinypanel_hub.Store.Messages.Delivery.{ack_one-id, ack_one-HasStatus}

ack-IsInbox :
    (now : Time) (device_id : String) (ids : List ℤ) (next : ℤ) (ms : List Message)
    → IsInbox next ms
    → IsInbox next (map (ack_one now device_id ids) ms)
ack-IsInbox now device_id ids next ms h =
    let f = ack_one now device_id ids in
    record {
      within = rw (length-map f ms) h.within;
      increasing =
          Pairwise-map f (λ (a b : Message). a.id <ℤ b.id) ms
            (Pairwise-mono (λ (a b : Message). a.id <ℤ b.id) (λ a b. (f a).id <ℤ (f b).id) ms
              (λ a b q. rw (ack_one-id now device_id ids a) (rw (ack_one-id now device_id ids b) q))
              h.increasing);
      below =
          All-map f (λ (a : Message). a.id <ℤ next) ms
            (All-mono (λ (a : Message). a.id <ℤ next) (λ a. (f a).id <ℤ next) ms
              (λ a q. rw (ack_one-id now device_id ids a) q) h.below);
      statuses = All-map f HasStatus ms (
          All-mono HasStatus (λ a. HasStatus (f a)) ms (ack_one-HasStatus now device_id ids)
            h.statuses);
    }

module _ (n : ℕ) (early : n < max_steps) (env : Env) (s : FileStore)
    (h : IsValid n s.contents) where
  pub add_device_message-IsValid :
      (owner_id device_id author_id body priority : String)
      → IsValid
          (suc n)
          (add_device_message env owner_id device_id author_id body priority s).0.contents
  unfolding add_device_message push_message new_message
  add_device_message-IsValid owner_id device_id author_id body priority =
      let (room, bound) = succ_bound n s.contents.next_message_id early h.message_ids in
      rw (commit-contents env _ s) (
        messages-IsValid n s.contents _ _
          (push_message-IsInbox
            (new_message env.now s.contents.next_message_id owner_id device_id author_id body
              priority)
            s.contents refl (inl (refl, refl)) room h.inbox)
          bound h)

  pub ack_device_messages-IsValid :
      (device_id : String) (ids : List ℤ)
      → IsValid (suc n) (ack_device_messages env device_id ids s).0.contents
  unfolding ack_device_messages
  ack_device_messages-IsValid device_id ids =
      let next = s.contents.next_message_id in
      let marked = (ack_device_messages_lem env device_id ids s h.inbox).0 in
      let same : (ack_loop env.now device_id ids [] s.contents.messages).0
          ≡ map (ack_one env.now device_id ids) s.contents.messages =
        sym (ap (λ (d : StateData). d.messages) (commit-contents env _ s)) ∙ marked in
      rw (commit-contents env _ s) (
        messages-IsValid n s.contents next _
          (rw same (ack-IsInbox env.now device_id ids next s.contents.messages h.inbox))
          (omega (arith, h.message_ids)) h)
