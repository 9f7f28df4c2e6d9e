-- ===== src/Service/Interface.antt =====
-- internal/service/service.go: what the services need of a store with the states `S`. A method that
-- changes the store takes what it needs from outside first, and the state before last.
use tinypanel_hub.Domain.{Weather, Snapshot, Telemetry}
use tinypanel_hub.Store.Todos.{TodoUpdate, TodoDelete}
use tinypanel_hub.Store.Devices.{BindResult}
use tinypanel_hub.Prelude.{String, List, Option, ℤ, Bool, eq_string, eq_int, eq_nat}
use tinypanel_hub.Domain.{Message, Todo, TodoPatch, User, Device, DeviceHello}
use tinypanel_hub.Store.State.{Error, Result, Env}

-- The two states are those at the lock and at the reading of the log.
pub record SnapshotStore (S : Type 0) : Type 0 where
  pub snapshot : Env → String → S → S → Snapshot

pub record WeatherStore (S : Type 0) : Type 0 where
  pub weather : S → Weather

pub record UserStore (S : Type 0) : Type 0 where
  pub user_by_token_hash : String → S → Option User
  pub user : String → S → Option User
  pub create_user : Env → String → String → String → S → S × User × Option Error

pub record DeviceStore (S : Type 0) : Type 0 where
  pub device_by_credentials : String → String → S → Option Device
  pub device : String → String → S → Option Device
  pub devices : String → S → List Device
  pub hello_device : Env → String → String → S → Option (S × Result DeviceHello)
  pub bind_device : Env → String → String → String → S → S × BindResult
  pub update_device : Env → String → String → String → S → S × Option (Result Device)
  pub delete_device : Env → String → String → S → S × Bool × Option Error

pub record MessageStore (S : Type 0) : Type 0 where
  pub device_messages : String → String → ℤ → S → List Message
  pub add_device_message :
      Env → String → String → String → String → String → S → S × Message × Option Error
  pub pending_device_messages : String → ℤ → S → List Message
  pub ack_device_messages : Env → String → List ℤ → S → S × List ℤ × List ℤ × Option Error

pub record TodoStore (S : Type 0) : Type 0 where
  pub todos : String → S → List Todo
  pub todo : String → ℤ → S → Option Todo
  pub add_todo : Env → String → String → ℤ → S → S × Todo × Option Error
  pub update_todo : Env → String → ℤ → ℤ → TodoPatch → S → S × TodoUpdate
  pub delete_todo : Env → String → ℤ → ℤ → S → S × TodoDelete

pub record TelemetryStore (S : Type 0) : Type 0 where
  pub telemetry : Env → ℤ → S → List Telemetry
  pub device_telemetry : Env → String → String → ℤ → S → S → List Telemetry
  pub add_telemetry : Env → Telemetry → S → S × Result Telemetry

-- `Store`, with the interfaces it embeds.
pub record Store (S : Type 0) : Type 0 where
  pub snapshots : SnapshotStore S
  pub weathers : WeatherStore S
  pub users : UserStore S
  pub devices : DeviceStore S
  pub messages : MessageStore S
  pub todos : TodoStore S
  pub telemetries : TelemetryStore S
