-- ===== src/Store/Validity.antt =====
-- The invariant of the state of internal/store, and how long its counters are in range.
use tinypanel_hub.Prelude.{ℕ, suc, List, ℤ, pos, eq_string, eq_int, arith, All, All-mono, ◌≤ℤ◌}
use tinypanel_hub.Domain.{Message, Todo, User, Device}
use tinypanel_hub.Store.State.{StateData}
use tinypanel_hub.Store.Messages.Inbox.{IsInbox}
use tinypanel_hub.Store.Todos.Invariant.{IsTodoList}
use tinypanel_hub.Store.Devices.Registry.{IsRegistry}

-- The state after at most `n` operations: the inbox, the todos and the devices are well-formed, and
-- the counters have grown by `n` at most.
pub record IsValid (n : ℕ) (d : StateData) : Type 0 where
  pub inbox : IsInbox d.next_message_id d.messages
  pub todos : IsTodoList d.next_todo_id d.todos
  pub registry : IsRegistry d.devices
  pub message_ids : d.next_message_id ≤ℤ pos (suc n)
  pub todo_ids : d.next_todo_id ≤ℤ pos (suc n)
  pub versions : All (λ (t : Todo). t.version ≤ℤ pos (suc n)) d.todos

-- As many operations as leave every counter below the largest int64.
abbrev pub max_steps : ℕ
max_steps = 9223372036854775806

pub versions_later :
    (n : ℕ) (ts : List Todo)
    → All (λ (t : Todo). t.version ≤ℤ pos (suc n)) ts
    → All (λ (t : Todo). t.version ≤ℤ pos (suc (suc n))) ts
versions_later n ts h =
    All-mono (λ (t : Todo). t.version ≤ℤ pos (suc n)) (λ (t : Todo). t.version ≤ℤ pos (suc (suc n)))
      ts (λ t q. omega arith) h

-- An operation on the devices.
pub devices-IsValid :
    (n : ℕ) (d : StateData) (ds : List Device)
    → IsRegistry ds
    → IsValid n d
    → IsValid (suc n) (record d { devices = ds })
devices-IsValid n d ds r h = record {
  inbox = h.inbox;
  todos = h.todos;
  registry = r;
  message_ids = omega (arith, h.message_ids);
  todo_ids = omega (arith, h.todo_ids);
  versions = versions_later n d.todos h.versions;
}

-- An operation on the users.
pub users-IsValid :
    (n : ℕ) (d : StateData) (us : List User)
    → IsValid n d
    → IsValid (suc n) (record d { users = us })
users-IsValid n d us h = record {
  inbox = h.inbox;
  todos = h.todos;
  registry = h.registry;
  message_ids = omega (arith, h.message_ids);
  todo_ids = omega (arith, h.todo_ids);
  versions = versions_later n d.todos h.versions;
}

pub later-IsValid : (n : ℕ) (d : StateData) → IsValid n d → IsValid (suc n) d
later-IsValid n d h = users-IsValid n d d.users h

-- An operation on the todos.
pub todos-IsValid :
    (n : ℕ) (d : StateData) (next : ℤ) (ts : List Todo)
    → IsTodoList next ts
    → next ≤ℤ pos (suc (suc n))
    → All (λ (t : Todo). t.version ≤ℤ pos (suc (suc n))) ts
    → IsValid n d
    → IsValid (suc n) (record d { next_todo_id = next; todos = ts })
todos-IsValid n d next ts list bound versions h = record {
  inbox = h.inbox;
  todos = list;
  registry = h.registry;
  message_ids = omega (arith, h.message_ids);
  todo_ids = bound;
  versions = versions;
}

-- An operation on the messages.
pub messages-IsValid :
    (n : ℕ) (d : StateData) (next : ℤ) (ms : List Message)
    → IsInbox next ms
    → next ≤ℤ pos (suc (suc n))
    → IsValid n d
    → IsValid (suc n) (record d { next_message_id = next; messages = ms })
messages-IsValid n d next ms inbox bound h = record {
  inbox = inbox;
  todos = h.todos;
  registry = h.registry;
  message_ids = bound;
  todo_ids = omega (arith, h.todo_ids);
  versions = versions_later n d.todos h.versions;
}
