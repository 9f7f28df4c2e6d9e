-- ===== src/Httpapi/Devices/Access.antt =====
-- Whom the device routes of internal/httpapi let change the devices.
use tinypanel_hub.Httpapi.Request.{Request, valid, json_body, path_string, Checked-cases}
use tinypanel_hub.Httpapi.Auth.{Server, require_user_auth}
use tinypanel_hub.Httpapi.Devices.{
  DeviceJson, handle_bind_device, handle_patch_device, handle_delete_device, DeviceRoute, list,
  bind, get, patch, delete, route_device, serve_device,
}
use tinypanel_hub.Store.Devices.{devices}
use tinypanel_hub.Store.Devices.Isolation.{devices_isolated}
use tinypanel_hub.Prelude.{
  String, ◌==◌, eq_string, eq_int, eq_nat, trim_space, ◌≡◌, refl, Bool-cases, ◌≢◌, inl, inr,
}
use tinypanel_hub.Domain.{User}
use tinypanel_hub.Store.State.{FileStore, Env}

module _ (json : DeviceJson) (env : Env) (r : Request) (user : User) (other : String)
    (s : FileStore) (ne : user.id ≢ other) (named : other ≢ "") where
  bind-devices : devices other (handle_bind_device json env r user s).0 ≡ devices other s
  unfolding handle_bind_device
  bind-devices = elim (Checked-cases (json_body json.bind_json r)) [
    | inr (x, e) ↦ rw (e, handle_bind_device) refl
    | inl (req, e) ↦ elim (Bool-cases (trim_space req.bind_code == "")) [
      | inl f ↦ rw (e, handle_bind_device) (rw f refl)
      | inr f ↦
          rw (e, handle_bind_device)
            (rw f (
              (devices_isolated env user.id other (trim_space req.bind_code) ""
                (trim_space req.name) s ne named).0))
    ]
  ]

  patch-devices : devices other (handle_patch_device json env r user s).0 ≡ devices other s
  unfolding handle_patch_device
  patch-devices = elim (Checked-cases (json_body json.patch_device_json r)) [
    | inr (x, e) ↦ rw (e, handle_patch_device) refl
    | inl (req, e) ↦ elim (Bool-cases (trim_space req.name == "")) [
      | inl f ↦ rw (e, handle_patch_device) (rw f refl)
      | inr f ↦
          rw (e, handle_patch_device)
            (rw f (
              (devices_isolated env user.id other "" (path_string r "device_id")
                (trim_space req.name) s ne named).1))
    ]
  ]

  delete-devices : devices other (handle_delete_device env r user s).0 ≡ devices other s
  unfolding handle_delete_device
  delete-devices =
      (devices_isolated env user.id other "" (path_string r "device_id") "" s ne named).2

  route_device-devices :
      (route : DeviceRoute)
      → devices other (route_device json env route r user s).0 ≡ devices other s
  unfolding route_device
  route_device-devices list = refl
  route_device-devices bind = bind-devices
  route_device-devices get = refl
  route_device-devices patch = patch-devices
  route_device-devices delete = delete-devices

-- A request to any of these routes leaves the devices of a named owner as they were, unless it is
-- let in as that owner: whatever its path, headers and body, and whichever system calls fail.
pub serve_device-devices :
    (server : Server) (json : DeviceJson) (env : Env) (route : DeviceRoute) (r : Request)
    (other : String) (s : FileStore)
    → other ≢ ""
    → ((user : User) → require_user_auth server r s ≡ valid user → user.id ≢ other)
    → devices other (serve_device server json env route r s).0 ≡ devices other s
unfolding serve_device
serve_device-devices server json env route r other s named stranger =
    elim (Checked-cases (require_user_auth server r s)) [
      | inr (x, e) ↦ rw (e, serve_device) refl
      | inl (user, e) ↦
          rw (e, serve_device)
            (route_device-devices json env r user other s (stranger user e) named route)
    ]
