-- ===== src/Store/Reachable/Invariant.antt =====
-- Every state that internal/store reaches is well-formed.
use tinypanel_hub.Prelude.{ℕ, suc, ◌≤◌, ◌<◌, String, eq_string, eq_int, ◌≡◌, arith}
use tinypanel_hub.Domain.{Telemetry, Time}
use tinypanel_hub.Store.State.{FileStore, Env}
use tinypanel_hub.Store.Commit.{commit-contents}
use tinypanel_hub.Store.File.{new_state_data}
use tinypanel_hub.Store.Users.{create_user}
use tinypanel_hub.Store.Telemetry.{add_telemetry}
use tinypanel_hub.Store.Validity.{IsValid, max_steps, users-IsValid, later-IsValid}
use tinypanel_hub.Store.Reachable.{
  Step, users, hello, bind, rename, unregister, add, patch, delete, send, ack, report, Reach, here,
  next,
}
use tinypanel_hub.Store.Reachable.Todos.{add_todo-IsValid, update_todo-IsValid, delete_todo-IsValid}
use tinypanel_hub.Store.Reachable.Devices.{
  hello_device-IsValid, bind_device-IsValid, update_device-IsValid, delete_device-IsValid,
}
use tinypanel_hub.Store.Reachable.Messages.{add_device_message-IsValid, ack_device_messages-IsValid}

create_user-IsValid :
    (n : ℕ) (env : Env) (name email token_hash : String) (s : FileStore)
    → IsValid n s.contents
    → IsValid (suc n) (create_user env name email token_hash s).0.contents
unfolding create_user
create_user-IsValid n env name email token_hash s h =
    rw (commit-contents env _ s) (users-IsValid n s.contents _ h)

-- A report of telemetry leaves the state alone.
pub add_telemetry-contents :
    (env : Env) (t : Telemetry) (s : FileStore) → (add_telemetry env t s).0.contents ≡ s.contents
unfolding add_telemetry
add_telemetry-contents env t s = ground arith

pub Step-IsValid :
    (n : ℕ) (s s' : FileStore)
    → n < max_steps
    → Step s s'
    → IsValid n s.contents
    → IsValid (suc n) s'.contents
Step-IsValid n s s' m (users env name email token_hash e) h =
    rw e (create_user-IsValid n env name email token_hash s h)
Step-IsValid n s s' m (hello env device_id secret_hash r codes q e) h =
    rw e (hello_device-IsValid env s n h device_id secret_hash r codes q)
Step-IsValid n s s' m (bind env owner_id bind_code name owner e) h =
    rw e (bind_device-IsValid env s n h owner_id bind_code name owner)
Step-IsValid n s s' m (rename env owner_id device_id name e) h =
    rw e (update_device-IsValid env s n h owner_id device_id name)
Step-IsValid n s s' m (unregister env owner_id device_id e) h =
    rw e (delete_device-IsValid env s n h owner_id device_id)
Step-IsValid n s s' m (add env owner_id text status e) h =
    rw e (add_todo-IsValid n m env owner_id s h text status)
Step-IsValid n s s' m (patch env owner_id id version p e) h =
    rw e (update_todo-IsValid n m env owner_id s h id version p)
Step-IsValid n s s' m (delete env owner_id id version e) h =
    rw e (delete_todo-IsValid n m env owner_id s h id version)
Step-IsValid n s s' m (send env owner_id device_id author_id body priority e) h =
    rw e (add_device_message-IsValid n m env s h owner_id device_id author_id body priority)
Step-IsValid n s s' m (ack env device_id ids e) h =
    rw e (ack_device_messages-IsValid n m env s h device_id ids)
Step-IsValid n s s' m (report env t e) h =
    rw e (rw (add_telemetry-contents env t s) (later-IsValid n s.contents h))

new_state_data-IsValid : (now : Time) → IsValid 0 (new_state_data now)
unfolding new_state_data
new_state_data-IsValid now = record {
  inbox = record { within = omega arith; increasing = tt; below = tt; statuses = tt };
  todos = record { increasing = tt; below = tt; versions = tt };
  registry = record { ids = tt; codes = tt; phases = tt };
  message_ids = omega arith;
  todo_ids = omega arith;
  versions = tt;
}

-- From a new store every sequence of operations, whatever their arguments and whichever system
-- calls fail, leads to a well-formed state, if there are at most 2^63 - 2 of them: at most 100
-- messages, identifiers that increase, versions of one or more, devices with distinct identifiers
-- and codes, each either waiting with a code or owned without one. Devices are bound by users with
-- an identifier, and the codes drawn are not empty.
pub Reach-IsValid :
    (now : Time) (s : FileStore) (n : ℕ) (s' : FileStore)
    → s.contents ≡ new_state_data now
    → n ≤ max_steps
    → Reach s n s'
    → IsValid n s'.contents
Reach-IsValid now s n s' new m here = rw new (new_state_data-IsValid now)
Reach-IsValid now s n s' new m (next {n = k} {t = t} r step) =
    Step-IsValid k t s' m step (Reach-IsValid now s k t new (omega arith) r)
