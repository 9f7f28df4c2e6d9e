-- ===== src/Store/File/Identifiers.antt =====
-- The identifiers that `normalize` (internal/store/state.go) gives out next.
use tinypanel_hub.Prelude.{
  ◌<◌, List, [], ◌∷◌, map, ℤ, pos, eq_string, eq_int, leb_ℤ, succ_int64, length, ◌≡◌, arith, All,
  In, All-In, Bool-cases, inl, inr, ◌≤ℤ◌, ◌<ℤ◌, int64_max, succ_int64_parts, lt-succ_int64,
}
use tinypanel_hub.Domain.{Message, Todo, Time}
use tinypanel_hub.Store.State.{StateData}
use tinypanel_hub.Store.File.{
  next_after, next_todo_id, next_todo_id_from, normalize, normalize_message,
}

-- One round of the loop: the variable does not fall, and is above the identifier.
pub next_after_lem :
    (next id : ℤ) → id <ℤ int64_max → (next ≤ℤ next_after next id) × (id <ℤ next_after next id)
next_after_lem next id h = elim (Bool-cases (leb_ℤ next id)) [
  | inl e ↦ rw e (
      let le : next ≤ℤ id = ground arith in
      (omega (arith, succ_int64_parts id h), lt-succ_int64 id h))
  | inr e ↦ rw e (omega arith, ground arith)
]

next_todo_id_from_lem :
    (next : ℤ) (ts : List Todo)
    → All (λ (t : Todo). t.id <ℤ int64_max) ts
    → (next ≤ℤ next_todo_id_from next ts) × All (λ (t : Todo). t.id <ℤ next_todo_id_from next ts) ts
unfolding next_todo_id_from
next_todo_id_from_lem next [] h = (omega arith, tt)
next_todo_id_from_lem next (t ∷ ts) (q, h) =
    let (up, above) = next_after_lem next t.id q in
    let (further, rest) = next_todo_id_from_lem (next_after next t.id) ts h in
    (omega arith, (omega arith, rest))

-- Where the state file had no next todo identifier, `normalize` gives one above that of every todo,
-- if none has the largest int64.
pub normalize-next_todo_id :
    (now : Time) (d : StateData)
    → d.next_todo_id ≡ pos 0
    → All (λ (t : Todo). t.id <ℤ int64_max) d.todos
    → All (λ (t : Todo). t.id <ℤ (normalize now d).next_todo_id) (normalize now d).todos
unfolding normalize next_todo_id
normalize-next_todo_id now d zero_id h = rw zero_id ((next_todo_id_from_lem (pos 1) d.todos h).1)

-- Where the state file had no next message identifier, `normalize` counts the messages. If a
-- message has an identifier above the count, as after the inbox has dropped old messages, then the
-- next identifier is not above that of every message.
pub normalize-next_message_id :
    (now : Time) (d : StateData) (m : Message)
    → d.next_message_id ≡ pos 0
    → In m d.messages
    → pos (length d.messages) <ℤ m.id
    → length d.messages < 9223372036854775807
    → ¬ All (λ (x : Message). x.id <ℤ (normalize now d).next_message_id) (normalize now d).messages
unfolding normalize normalize_message
normalize-next_message_id now d m zero_id i above small all =
    let n = succ_int64 (pos (length d.messages)) in
    let below : All (λ (x : Message). (normalize_message x).id <ℤ n) d.messages =
      unmap d.messages (rw zero_id at all) in
    absurd (
      omega (
        arith,
        All-In (λ (x : Message). (normalize_message x).id <ℤ n) m d.messages below i,
        succ_int64_parts (pos (length d.messages)) (omega arith),
      ))
  where
    unmap :
        (ms : List Message)
        → All
            (λ (x : Message). x.id <ℤ succ_int64 (pos (length d.messages)))
            (map normalize_message ms)
        → All (λ (x : Message). (normalize_message x).id <ℤ succ_int64 (pos (length d.messages))) ms
    unmap [] h = tt
    unmap (x ∷ ms) (q, h) = (q, unmap ms h)
