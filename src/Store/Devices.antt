-- ===== src/Store/Devices.antt =====
-- internal/store/devices.go: registering, binding, renaming and deleting devices.
pub mod Hello
pub mod Registry
pub mod Binding
pub mod Preservation
pub mod Flow
pub mod Isolation
pub mod Reregistration
use tinypanel_hub.Prelude.{
  ℕ, ◌+◌, String, List, [], ◌∷◌, ◌++◌, map, Option, none, some, ℤ, pos, Bool, true, false, not,
  ◌&&◌, ◌||◌, if◌then◌else◌, ◌==◌, ◌!=◌, eq_string, eq_int, filter, find?, any, update_first,
  remove_first, trim_space,
}
use tinypanel_hub.Domain.{Device, DeviceHello, Time, after}
use tinypanel_hub.Store.State.{
  Error, invalid_device_secret, Result, ok, err, StateData, FileStore, Env,
}
use mathlib.Core.Option
use tinypanel_hub.Store.Commit.{commit}

-- 10 minutes, in nanoseconds and in seconds.
abbrev pub bind_code_ttl : ℕ
bind_code_ttl = 600_000_000_000

abbrev pub bind_code_ttl_seconds : ℤ
bind_code_ttl_seconds = pos 600

unfoldable pub device_by_credentials : String → String → FileStore → Option Device
device_by_credentials device_id secret_hash s =
    find? (λ d. d.id == device_id && d.secret_hash == secret_hash) s.contents.devices

abbrev pub is_owned : String → String → Device → Bool
is_owned owner_id device_id d = d.id == device_id && d.owner_id == owner_id

unfoldable pub device : String → String → FileStore → Option Device
device owner_id device_id s = find? (is_owned owner_id device_id) s.contents.devices

unfoldable pub devices : String → FileStore → List Device
devices owner_id s = filter (λ d. d.owner_id == owner_id) s.contents.devices

unfoldable pub bind_code_exists : String → List Device → Bool
bind_code_exists code ds = any (λ d. d.bind_code == code) ds

-- The loop of `uniqueBindCode` over the codes drawn; `none`: it is still drawing after the last.
unfoldable pub unique_bind_code : List String → List Device → Option String
unfolding bind_code_exists
unique_bind_code draws ds = find? (λ code. not (bind_code_exists code ds)) draws

unfoldable pub device_hello : Device → Time → DeviceHello
device_hello d now = record {
  device_id = d.id;
  device_secret = "";
  bound = d.owner_id != "";
  name = d.name;
  bind_code = if d.owner_id != "" then "" else d.bind_code;
  bind_code_ttl = if d.owner_id != "" then pos 0 else bind_code_ttl_seconds;
  server_time = now;
  bound_at = d.bound_at;
}

-- `BindCodeExpiresAt == nil || now.After(*BindCodeExpiresAt)`
abbrev pub has_expired : Time → Option Time → Bool
has_expired now none = true
has_expired now (some t) = after now t

abbrev pub needs_code : Time → Device → Bool
needs_code now d = d.owner_id == "" && (d.bind_code == "" || has_expired now d.bind_code_expires_at)

abbrev pub with_code : Time → String → Device → Device
with_code now code d = record d {
  bind_code = code;
  bind_code_expires_at = some (now + bind_code_ttl);
}

-- The changes of `HelloDevice` to a known device.
unfoldable pub seen_device : Env → List Device → Device → Option Device
unfolding unique_bind_code
seen_device env ds d =
    let seen = record d { last_seen_at = some (env.now) } in
    if needs_code env.now seen
    then Option.map (λ code. with_code env.now code seen) (unique_bind_code env.codes ds)
    else some seen

-- The device that `HelloDevice` registers.
unfoldable pub fresh_device : Time → String → String → String → Device
fresh_device now device_id secret_hash code = record {
  id = device_id;
  owner_id = "";
  name = "";
  secret_hash = secret_hash;
  bind_code = code;
  bind_code_expires_at = some (now + bind_code_ttl);
  bound_at = none;
  last_seen_at = some now;
  created_at = now;
}

abbrev pub set_devices : List Device → FileStore → StateData
set_devices ds s = record (s.contents) { devices = ds }

abbrev pub answer : {A : Type 0} → A → Option Error → Result A
answer a none = ok a
answer a (some e) = err e

-- The save at the end of `HelloDevice`.
unfoldable pub save_hello : Env → Device → List Device → FileStore → FileStore × Result DeviceHello
unfolding device_hello
save_hello env d ds s =
    let (s', e) = commit env (set_devices ds s) s in (s', answer (device_hello d env.now) e)

abbrev pub has_id : String → Device → Bool
has_id device_id d = d.id == device_id

-- `HelloDevice`; `none`: it is still drawing bind codes after those in `env`.
unfoldable pub hello_device :
    Env → String → String → FileStore → Option (FileStore × Result DeviceHello)
unfolding seen_device fresh_device save_hello
hello_device env device_id secret_hash s =
    let ds = s.contents.devices in
    elim (find? (has_id device_id) ds) [
      | none ↦
          Option.map
            (λ code.
              let d = fresh_device env.now device_id secret_hash code in
              save_hello env d (ds ++ d ∷ []) s)
            (unique_bind_code env.codes ds)
      | some d ↦
          if d.secret_hash != secret_hash
          then some (s, err invalid_device_secret)
          else Option.map (λ d'. save_hello env d' (update_first (has_id device_id) (λ _. d') ds) s)
              (seen_device env ds d)
    ]

-- The results `found`, `bound` and the error of `BindDevice`.
pub data BindResult : Type 0 where
  unknown_code : BindResult
  refused : BindResult
  failed : Error → BindResult
  bound : Device → BindResult

abbrev pub has_code : String → Device → Bool
has_code code d = d.bind_code == code

-- The changes of `BindDevice` to the device.
unfoldable pub bound_device : Time → String → String → Device → Device
bound_device now owner_id name d = record d {
  owner_id = owner_id;
  name = if trim_space name == "" then d.id else trim_space name;
  bind_code = "";
  bind_code_expires_at = none;
  bound_at = some now;
}

abbrev pub bind_answer : Device → Option Error → BindResult
bind_answer d none = bound d
bind_answer d (some e) = failed e

unfoldable pub bind_device : Env → String → String → String → FileStore → FileStore × BindResult
unfolding bound_device
bind_device env owner_id bind_code name s =
    let ds = s.contents.devices in
    elim (find? (has_code bind_code) ds) [
      | none ↦ (s, unknown_code)
      | some d ↦
          if d.owner_id != "" || has_expired env.now d.bind_code_expires_at
          then (s, refused)
          else (let d' = bound_device env.now owner_id name d in
              let ds' = update_first (has_code bind_code) (λ _. d') ds in
              let (s', e) = commit env (set_devices ds' s) s in (s', bind_answer d' e))
    ]

-- `UpdateDevice`; `none`: no such device of the owner.
unfoldable pub update_device :
    Env → String → String → String → FileStore → FileStore × Option (Result Device)
update_device env owner_id device_id name s =
    let ds = s.contents.devices in
    elim (device owner_id device_id s) [
      | none ↦ (s, none)
      | some d ↦
          (let d' = record d { name = trim_space name } in
            let ds' = update_first (is_owned owner_id device_id) (λ _. d') ds in
            let (s', e) = commit env (set_devices ds' s) s in (s', some (answer d' e)))
    ]

-- `DeleteDevice`: whether the device was found, and the error of the save.
unfoldable pub delete_device : Env → String → String → FileStore → FileStore × Bool × Option Error
delete_device env owner_id device_id s =
    let ds = s.contents.devices in
    elim (device owner_id device_id s) [
      | none ↦ (s, false, none)
      | some d ↦
          (let ds' = remove_first (is_owned owner_id device_id) ds in
            let (s', e) = commit env (set_devices ds' s) s in (s', true, e))
    ]
