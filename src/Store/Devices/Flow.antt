-- ===== src/Store/Devices/Flow.antt =====
-- Registering and binding together (internal/store/devices.go): the code that a hello returns binds
-- the device.
use tinypanel_hub.Prelude.{
  ℕ, ◌⊎◌, ◌+◌, ◌≤◌, String, List, some, false, eq_string, eq_int, find?, ◌≡◌, sym, ◌∙◌, All, In,
  find?_of_Pairwise, ==_of_ne, eq_refl, ◌≢◌,
}
use tinypanel_hub.Domain.{Device, DeviceHello, Time}
use tinypanel_hub.Store.State.{FileStore, Env}
use tinypanel_hub.Store.Devices.{has_id, has_code, device_hello, has_expired}
use tinypanel_hub.Store.Devices.Registry.{IsRegistry, DistinctCodes, DistinctIds}

pub find_by_code :
    (ds : List Device) (d : Device)
    → IsRegistry ds
    → In d ds
    → d.bind_code ≢ ""
    → find? (has_code d.bind_code) ds ≡ some d
find_by_code ds d h i new =
    find?_of_Pairwise (has_code d.bind_code) DistinctCodes ds d h.codes i (eq_refl d.bind_code)
      (λ a r. ==_of_ne _ _ (λ e. new (sym e ∙ r e)))

pub find_by_id :
    (ds : List Device) (d : Device) → IsRegistry ds → In d ds → find? (has_id d.id) ds ≡ some d
find_by_id ds d h i =
    find?_of_Pairwise (has_id d.id) DistinctIds ds d h.ids i (eq_refl d.id) (λ a r. ==_of_ne _ _ r)

-- No device of the list has the code.
abbrev pub IsNewCode : List Device → String → Type 0
IsNewCode ds code = All (λ (d : Device). d.bind_code ≢ code) ds

-- Ten minutes, in nanoseconds
abbrev ten_minutes : ℕ
ten_minutes = 600_000_000_000

-- The device's code can be used for ten minutes from `now`.
abbrev Lasts : Time → Device → Type 0
Lasts now d = has_expired (now + ten_minutes) d.bind_code_expires_at ≡ false

-- The device that a hello which succeeded has left in the store.
pub record Greeted (env : Env) (device_id : String) (ds : List Device) (s' : FileStore)
    (hello : DeviceHello) : Type 0 where
  pub device : Device
  pub listed : In device s'.contents.devices
  pub id : device.id ≡ device_id
  pub answers : hello ≡ device_hello device env.now
  pub valid : device.owner_id ≡ "" → has_expired env.now device.bind_code_expires_at ≡ false
  pub lasting : IsNewCode ds device.bind_code → Lasts env.now device

-- When a code that a hello returned can still be used: up to that hello's time, and where no device
-- had the code before, so that this hello has drawn it, for ten minutes more.
abbrev pub InTime : Env → List Device → String → Time → Type 0
InTime env ds code time = (time ≤ env.now) ⊎ (IsNewCode ds code × (time ≤ env.now + ten_minutes))
