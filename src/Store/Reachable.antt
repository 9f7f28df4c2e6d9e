-- ===== src/Store/Reachable.antt =====
-- The states that sequences of the operations of internal/store reach.
use tinypanel_hub.Prelude.{ℕ, zero, suc, String, List, some, ℤ, ◌≡◌, All, ◌≢◌}
use tinypanel_hub.Domain.{TodoPatch, DeviceHello, Telemetry}
pub mod Todos
pub mod Devices
pub mod Messages
pub mod Invariant
pub mod Named
use tinypanel_hub.Store.State.{Result, FileStore, Env}
use tinypanel_hub.Store.State.{Env}
use tinypanel_hub.Store.Users.{create_user}
use tinypanel_hub.Store.Devices.{hello_device, bind_device, update_device, delete_device}
use tinypanel_hub.Store.Devices.Preservation.{IsNonempty}
use tinypanel_hub.Store.Todos.{add_todo, update_todo, delete_todo}
use tinypanel_hub.Store.Messages.{add_device_message, ack_device_messages}
use tinypanel_hub.Store.Telemetry.{add_telemetry}

-- One operation that changes the store, with any arguments and any outcome of the system calls.
-- Users have identifiers, and bind codes have digits.
pub data Step (s s' : FileStore) : Type 0 where
  users :
      (env : Env) (name email token_hash : String)
      → s' ≡ (create_user env name email token_hash s).0
      → Step s s'
  hello :
      (env : Env) (device_id secret_hash : String) (r : FileStore × Result DeviceHello)
      → All IsNonempty env.codes
      → hello_device env device_id secret_hash s ≡ some r
      → s' ≡ r.0
      → Step s s'
  bind :
      (env : Env) (owner_id bind_code name : String)
      → owner_id ≢ ""
      → s' ≡ (bind_device env owner_id bind_code name s).0
      → Step s s'
  rename :
      (env : Env) (owner_id device_id name : String)
      → s' ≡ (update_device env owner_id device_id name s).0
      → Step s s'
  unregister :
      (env : Env) (owner_id device_id : String)
      → s' ≡ (delete_device env owner_id device_id s).0
      → Step s s'
  add :
      (env : Env) (owner_id text : String) (status : ℤ)
      → s' ≡ (add_todo env owner_id text status s).0
      → Step s s'
  patch :
      (env : Env) (owner_id : String) (id version : ℤ) (p : TodoPatch)
      → s' ≡ (update_todo env owner_id id version p s).0
      → Step s s'
  delete :
      (env : Env) (owner_id : String) (id version : ℤ)
      → s' ≡ (delete_todo env owner_id id version s).0
      → Step s s'
  send :
      (env : Env) (owner_id device_id author_id body priority : String)
      → s' ≡ (add_device_message env owner_id device_id author_id body priority s).0
      → Step s s'
  ack :
      (env : Env) (device_id : String) (ids : List ℤ)
      → s' ≡ (ack_device_messages env device_id ids s).0
      → Step s s'
  report : (env : Env) (t : Telemetry) → s' ≡ (add_telemetry env t s).0 → Step s s'

-- `n` operations lead from `s` to the state.
pub data Reach (s : FileStore) : ℕ → FileStore → Type 0 where
  here : Reach s zero s
  next : {n : ℕ} {t u : FileStore} → Reach s n t → Step t u → Reach s (suc n) u
