-- ===== src/Store/Reachable/Devices.antt =====
-- The operations of internal/store/devices.go keep the invariant of the state.
use tinypanel_hub.Prelude.{
  ℕ, suc, String, List, some, eq_string, eq_int, ◌≡◌, All, Option-cases, ◌≢◌, inl, inr,
}
use tinypanel_hub.Domain.{Device, DeviceHello}
use tinypanel_hub.Store.State.{Result, FileStore, Env}
use tinypanel_hub.Store.Commit.{commit, commit-contents}
use tinypanel_hub.Store.Validity.{IsValid, devices-IsValid}
use tinypanel_hub.Store.Devices.{
  save_hello, hello_device, bind_device, BindResult, device, update_device, delete_device,
  set_devices,
}
use tinypanel_hub.Store.Devices.Hello.{
  HelloOutcome, rejected, known, registered, hello_device-HelloOutcome,
}
use tinypanel_hub.Store.Devices.Binding.{
  BindOutcome, no_device, not_bindable, bindable, bind_device-BindOutcome,
}
use tinypanel_hub.Store.Devices.Preservation.{
  IsNonempty, save_hello-devices, hello_device-IsRegistry, bind_device-IsRegistry,
  update_device-IsRegistry, delete_device-IsRegistry,
}

-- Only the devices of the data have changed.
abbrev pub OnlyDevices : FileStore → FileStore → Type 0
OnlyDevices s s' = s'.contents ≡ set_devices s'.contents.devices s

module _ (env : Env) (s : FileStore) where
  commit-OnlyDevices : (ds : List Device) → OnlyDevices s (commit env (set_devices ds s) s).0
  commit-OnlyDevices ds = rw (commit-contents env (set_devices ds s) s)

  pub hello_device-OnlyDevices :
      (device_id secret_hash : String) (r : FileStore × Result DeviceHello)
      → hello_device env device_id secret_hash s ≡ some r
      → OnlyDevices s r.0
  hello_device-OnlyDevices device_id secret_hash r e =
      by_outcome (hello_device-HelloOutcome env device_id secret_hash s r e)
    where
      saved : (d : Device) (ds : List Device) → OnlyDevices s (save_hello env d ds s).0
      saved d ds = rw (save_hello-devices env d ds s)

      by_outcome : HelloOutcome env device_id secret_hash s r → OnlyDevices s r.0
      by_outcome (rejected d found other q) = rw q
      by_outcome (known d d' found same seen q) = rw q (saved d' _)
      by_outcome (registered code found drawn q) = rw q (saved _ _)

  pub bind_device-OnlyDevices :
      (owner_id bind_code name : String)
      → OnlyDevices s (bind_device env owner_id bind_code name s).0
  bind_device-OnlyDevices owner_id bind_code name =
      by_outcome _ (bind_device-BindOutcome env owner_id bind_code name s)
    where
      by_outcome :
          (r : FileStore × BindResult)
          → BindOutcome env owner_id bind_code name s r
          → OnlyDevices s r.0
      by_outcome r (no_device found e) = rw e
      by_outcome r (not_bindable d found why e) = rw e
      by_outcome r (bindable d found free valid e) = rw e (commit-OnlyDevices _)

  pub update_device-OnlyDevices :
      (owner_id device_id name : String)
      → OnlyDevices s (update_device env owner_id device_id name s).0
  unfolding update_device
  update_device-OnlyDevices owner_id device_id name =
      elim (Option-cases (device owner_id device_id s)) [
        | inl e ↦ rw (e, update_device)
        | inr (d, e) ↦ rw (e, update_device) (commit-OnlyDevices _)
      ]

  pub delete_device-OnlyDevices :
      (owner_id device_id : String) → OnlyDevices s (delete_device env owner_id device_id s).0
  unfolding delete_device
  delete_device-OnlyDevices owner_id device_id = elim (Option-cases (device owner_id device_id s)) [
    | inl e ↦ rw (e, delete_device)
    | inr (d, e) ↦ rw (e, delete_device) (commit-OnlyDevices _)
  ]

  module _ (n : ℕ) (h : IsValid n s.contents) where
    pub hello_device-IsValid :
        (device_id secret_hash : String) (r : FileStore × Result DeviceHello)
        → All IsNonempty env.codes
        → hello_device env device_id secret_hash s ≡ some r
        → IsValid (suc n) r.0.contents
    hello_device-IsValid device_id secret_hash r codes e =
        rw (hello_device-OnlyDevices device_id secret_hash r e) (
          devices-IsValid n s.contents _
            (hello_device-IsRegistry env device_id secret_hash s r codes e h.registry) h)

    pub bind_device-IsValid :
        (owner_id bind_code name : String)
        → owner_id ≢ ""
        → IsValid (suc n) (bind_device env owner_id bind_code name s).0.contents
    bind_device-IsValid owner_id bind_code name owner =
        rw (bind_device-OnlyDevices owner_id bind_code name) (
          devices-IsValid n s.contents _
            (bind_device-IsRegistry env owner_id bind_code name s owner h.registry) h)

    pub update_device-IsValid :
        (owner_id device_id name : String)
        → IsValid (suc n) (update_device env owner_id device_id name s).0.contents
    update_device-IsValid owner_id device_id name =
        rw (update_device-OnlyDevices owner_id device_id name) (
          devices-IsValid n s.contents _
            (update_device-IsRegistry env owner_id device_id name s h.registry) h)

    pub delete_device-IsValid :
        (owner_id device_id : String)
        → IsValid (suc n) (delete_device env owner_id device_id s).0.contents
    delete_device-IsValid owner_id device_id = rw (delete_device-OnlyDevices owner_id device_id) (
        devices-IsValid n s.contents _
          (delete_device-IsRegistry env owner_id device_id s h.registry) h)
