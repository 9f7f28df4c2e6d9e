-- ===== src/Store/Messages/Ack.antt =====
-- What `AckDeviceMessages` of internal/store/messages.go acknowledges, reports and leaves alone.
use tinypanel_hub.Prelude.{
  String, List, [], ◌∷◌, ◌++◌, map, ℤ, Bool, true, false, not, ◌&&◌, if◌then◌else◌, ◌==◌, eq_string,
  eq_int, filter, any, ◌≡◌, refl, sym, ap, ◌∙◌, arith, All, Pairwise, In, All-of_In, All-mono,
  Bool-cases, inl, inr, ◌<ℤ◌, eq_ℤ, eq_ℤ_iff, ne_of_lt_ℤ,
}
use tinypanel_hub.Domain.{Message, Time}
use tinypanel_hub.Store.State.{StateData, FileStore, Env}
use tinypanel_hub.Store.Commit.{commit-contents}
use mathlib.Core.List.{append_assoc, append-nil}
use tinypanel_hub.Prelude.{filter_congr, map_congr}
use tinypanel_hub.Store.Messages.{wanted, delete_key, mark_acked, ack_loop, ack_device_messages}
use tinypanel_hub.Store.Messages.Inbox.{IsInbox}

-- The message is the device's and its identifier is requested.
abbrev pub is_hit : String → List ℤ → Message → Bool
is_hit device_id ids m = m.device_id == device_id && wanted m.id ids

-- One message after an acknowledgement.
abbrev pub ack_one : Time → String → List ℤ → Message → Message
ack_one now device_id ids m = if is_hit device_id ids m then mark_acked now m else m

-- Some message of the device has the identifier.
abbrev pub has_message : String → List Message → ℤ → Bool
has_message device_id ms id = any (λ (m : Message). m.device_id == device_id && m.id == id) ms

wanted-delete_key_ne :
    (i j : ℤ) (want : List ℤ) → eq_ℤ j i ≡ false → wanted i (delete_key j want) ≡ wanted i want
wanted-delete_key_ne i j [] h = refl
wanted-delete_key_ne i j (k ∷ want) h =
    ground (arith, wanted-delete_key_ne i j want h, eq_ℤ_iff k j, eq_ℤ_iff k i, eq_ℤ_iff j i)

wanted-delete_key_self : (i : ℤ) (want : List ℤ) → wanted i (delete_key i want) ≡ false
wanted-delete_key_self i [] = refl
wanted-delete_key_self i (k ∷ want) = ground (arith, wanted-delete_key_self i want, eq_ℤ_iff k i)

wanted_of_In : (i : ℤ) (ids : List ℤ) → In i ids → wanted i ids ≡ true
wanted_of_In i [] h = elim h [ ]
wanted_of_In i (k ∷ ids) (inl e) = ground (arith, eq_ℤ_iff k i)
wanted_of_In i (k ∷ ids) (inr h) = ground (arith, wanted_of_In i ids h)

-- The test for a later message after the loop has gone past the message `x`.
later_hit :
    (device_id : String) (want : List ℤ) (x y : Message)
    → x.id <ℤ y.id
    → is_hit device_id (delete_key x.id want) y ≡ is_hit device_id want y
later_hit device_id want x y h =
    ground (arith, wanted-delete_key_ne y.id x.id want, ne_of_lt_ℤ x.id y.id h)

abbrev next_want : String → List ℤ → Message → List ℤ
next_want device_id want x = if is_hit device_id want x then delete_key x.id want else want

later_hits :
    (device_id : String) (want : List ℤ) (x : Message) (ms : List Message)
    → All (λ (y : Message). x.id <ℤ y.id) ms
    → All (λ y. is_hit device_id (next_want device_id want x) y ≡ is_hit device_id want y) ms
later_hits device_id want x ms h = elim (Bool-cases (is_hit device_id want x)) [
  | inl e ↦ rw e (
      All-mono (λ (y : Message). x.id <ℤ y.id)
        (λ y. is_hit device_id (delete_key x.id want) y ≡ is_hit device_id want y) ms
        (λ y. later_hit device_id want x y) h)
  | inr e ↦ rw e (All-of_In _ ms (λ y _. refl))
]

want_step :
    (device_id : String) (want : List ℤ) (x : Message) (id : ℤ) (b : Bool)
    → (wanted id (next_want device_id want x) && not b)
      ≡ (wanted id want && not (if x.device_id == device_id && x.id == id then true else b))
want_step device_id want x id b =
    ground
      (arith, eq_ℤ_iff x.id id, wanted-delete_key_ne id x.id want, wanted-delete_key_self id want)

module _ (now : Time) (device_id : String) where
  ack_loop_messages :
      (want acked : List ℤ) (ms : List Message)
      → Pairwise (λ (a b : Message). a.id <ℤ b.id) ms
      → (ack_loop now device_id want acked ms).0 ≡ map (ack_one now device_id want) ms
  unfolding ack_loop
  ack_loop_messages want acked [] h = refl
  ack_loop_messages want acked (x ∷ ms) (q, h) =
      ap (λ r. ack_one now device_id want x ∷ r)
        (ack_loop_messages (next_want device_id want x) _ ms h
          ∙ map_congr _ _ ms (
              All-mono
                (λ y. is_hit device_id (next_want device_id want x) y ≡ is_hit device_id want y)
                (λ y.
                  ack_one now device_id (next_want device_id want x) y
                  ≡ ack_one now device_id want y)
                ms (λ y e. rw e refl) (later_hits device_id want x ms q)))

  ack_loop_acked :
      (want acked : List ℤ) (ms : List Message)
      → Pairwise (λ (a b : Message). a.id <ℤ b.id) ms
      → (ack_loop now device_id want acked ms).1
        ≡ acked ++ map (λ (m : Message). m.id) (filter (is_hit device_id want) ms)
  unfolding ack_loop
  ack_loop_acked want acked [] h = sym (append-nil acked)
  ack_loop_acked want acked (x ∷ ms) (q, h) =
      let same = filter_congr _ _ ms (later_hits device_id want x ms q) in
      ground (
        arith,
        same,
        ack_loop_acked (delete_key x.id want) (acked ++ x.id ∷ []) ms h,
        ack_loop_acked want acked ms h,
        append_assoc acked (x.id ∷ [])
            (map (λ (m : Message). m.id) (filter (is_hit device_id want) ms)),
      )

  -- The keys left are those that no message of the device has.
  ack_loop_want :
      (want acked : List ℤ) (ms : List Message) (id : ℤ)
      → wanted id (ack_loop now device_id want acked ms).2
        ≡ (wanted id want && not (has_message device_id ms id))
  unfolding ack_loop
  ack_loop_want want acked [] id = ground arith
  ack_loop_want want acked (x ∷ ms) id =
      ack_loop_want (next_want device_id want x) _ ms id
      ∙ want_step device_id want x id (has_message device_id ms id)

-- `AckDeviceMessages` marks the requested messages of the device and no other, reports their
-- identifiers in the order of the inbox, and reports as missing the requested identifiers that no
-- message of the device has. This is of an inbox with increasing identifiers.
pub ack_device_messages_lem :
    (env : Env) (device_id : String) (ids : List ℤ) (s : FileStore)
    → IsInbox s.contents.next_message_id s.contents.messages
    → let (s', acked, missing, e) = ack_device_messages env device_id ids s in
      (s'.contents.messages ≡ map (ack_one env.now device_id ids) s.contents.messages)
      × (acked ≡ map (λ (m : Message). m.id) (filter (is_hit device_id ids) s.contents.messages))
      × (missing ≡ filter (λ id. not (has_message device_id s.contents.messages id)) ids)
unfolding ack_device_messages
ack_device_messages_lem env device_id ids s h =
    let ms = s.contents.messages in
    (
      ap (λ (d : StateData). d.messages) (commit-contents env _ s)
          ∙ ack_loop_messages env.now device_id ids [] ms h.increasing,
      ack_loop_acked env.now device_id ids [] ms h.increasing,
      filter_congr _ _ ids (
          All-of_In _ ids (λ id i.
            ack_loop_want env.now device_id ids [] ms id ∙ rw (wanted_of_In id ids i) refl)),
    )
