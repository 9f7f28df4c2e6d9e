-- ===== src/Httpapi/Devices.antt =====
-- internal/httpapi/devices.go and public.go: the device handlers.
pub mod Access
pub mod Public
use tinypanel_hub.Service.Devices as DeviceService
use tinypanel_hub.Service.Files.{file_devices}
use tinypanel_hub.Httpapi.Request.{
  Decoder, Request, Response, no_content, device_body, devices_body, hello_body, write_json,
  write_error, write_store_error, Checked, valid, reply, json_body, path_string,
}
use tinypanel_hub.Httpapi.Auth.{Server, require_user_auth}
use tinypanel_hub.Store.Devices.{device, BindResult, unknown_code, refused, failed, bound}
use mathlib.Core.Option
use tinypanel_hub.Prelude.{
  ◌-◌, String, List, map, Option, none, some, Bool, true, false, not, if◌then◌else◌, ◌==◌, ◌!=◌,
  eq_string, eq_int, eq_nat, trim_space,
}
use tinypanel_hub.Domain.{User, Device, DeviceHello}
use tinypanel_hub.Store.State.{Error, error_text, Result, ok, err, FileStore, Env}

pub record HelloRequest : Type 0 where
  pub device_id : String

pub record BindRequest : Type 0 where
  pub bind_code : String
  pub name : String

pub record PatchDevice : Type 0 where
  pub name : String

pub record DeviceJson : Type 0 where
  pub hello_json : Decoder HelloRequest
  pub bind_json : Decoder BindRequest
  pub patch_device_json : Decoder PatchDevice

unfoldable pub public_device : Device → Device
public_device d = record d { secret_hash = "" }

abbrev pub public_devices : List Device → List Device
public_devices ds = map public_device ds

-- The identifier of `handleDeviceHello`: from the header, else from the body.
unfoldable pub hello_id : DeviceJson → Request → Checked String
unfolding json_body write_error
hello_id json r =
    let named = trim_space (r.header "X-Device-ID") in
    if named != "" then valid named else elim (json_body json.hello_json r) [
      | reply x ↦ reply x
      | valid req ↦
          if trim_space req.device_id == ""
          then reply (write_error 400 "device_id is required")
          else valid (trim_space req.device_id)
    ]

-- The response to the result of `Hello`; `fresh` is the new secret, if one was drawn.
unfoldable pub hello_reply : Option String → Result DeviceHello → Response
unfolding write_error
hello_reply fresh (err e) =
    if error_text e == "invalid device secret"
    then write_error 401 "missing or invalid device credentials"
    else write_store_error
hello_reply none (ok hello) = write_json 200 (hello_body hello)
hello_reply (some secret) (ok hello) =
    write_json 200 (hello_body (record hello { device_secret = secret }))

-- `handleDeviceHello`; `none`: the call of the store is still drawing bind codes.
unfoldable pub handle_device_hello :
    Server → DeviceJson → Env → Request → FileStore → Option (FileStore × Response)
unfolding hello_id hello_reply
handle_device_hello server json env r s = elim (hello_id json r) [
  | reply x ↦ some (s, x)
  | valid device_id ↦
      let given = trim_space (r.header "X-Device-Secret") in
      let fresh = if given == "" then some (server.random_secret) else none in
      let secret = if given == "" then server.random_secret else given in
      Option.map (λ (s', hello). (s', hello_reply fresh hello))
        (DeviceService.hello file_devices env device_id (server.token_hash secret) s)
]

-- `handleListDevices`
unfoldable pub handle_list_devices : User → FileStore → Response
unfolding public_device
handle_list_devices user s =
    write_json 200 (devices_body (public_devices (DeviceService.list file_devices user.id s)))

-- The response to the results of `Bind`
unfoldable pub bind_reply : BindResult → Response
unfolding write_error public_device
bind_reply unknown_code = write_error 404 "bind code not found"
bind_reply refused = write_error 409 "bind code expired or already used"
bind_reply (failed e) = write_store_error
bind_reply (bound d) = write_json 200 (device_body (public_device d))

-- `handleBindDevice`
unfoldable pub handle_bind_device :
    DeviceJson → Env → Request → User → FileStore → FileStore × Response
unfolding json_body write_error bind_reply
handle_bind_device json env r user s = elim (json_body json.bind_json r) [
  | reply x ↦ (s, x)
  | valid req ↦
      let code = trim_space req.bind_code in
      if code == ""
      then (s, write_error 400 "bind_code is required")
      else (let (s', b) =
            DeviceService.bind file_devices env user.id code (trim_space req.name) s in
          (s', bind_reply b))
]

-- `handleGetDevice`
unfoldable pub handle_get_device : Request → User → FileStore → Response
unfolding write_error public_device
handle_get_device r user s =
    elim (DeviceService.get file_devices user.id (path_string r "device_id") s) [
      | none ↦ write_error 404 "device not found"
      | some d ↦ write_json 200 (device_body (public_device d))
    ]

-- The response to the results of `Update`
unfoldable pub update_device_reply : Option (Result Device) → Response
unfolding write_error public_device
update_device_reply none = write_error 404 "device not found"
update_device_reply (some (err e)) = write_store_error
update_device_reply (some (ok d)) = write_json 200 (device_body (public_device d))

-- `handlePatchDevice`
unfoldable pub handle_patch_device :
    DeviceJson → Env → Request → User → FileStore → FileStore × Response
unfolding json_body write_error update_device_reply
handle_patch_device json env r user s = elim (json_body json.patch_device_json r) [
  | reply x ↦ (s, x)
  | valid req ↦
      let name = trim_space req.name in
      if name == ""
      then (s, write_error 400 "name is required")
      else (let (s', u) =
            DeviceService.update file_devices env user.id (path_string r "device_id") name s in
          (s', update_device_reply u))
]

-- The response to the results of `Delete`
unfoldable pub delete_device_reply : Bool → Option Error → Response
unfolding write_error
delete_device_reply found (some e) = write_store_error
delete_device_reply false none = write_error 404 "device not found"
delete_device_reply true none = write_json 204 no_content

-- `handleDeleteDevice`
unfoldable pub handle_delete_device : Env → Request → User → FileStore → FileStore × Response
unfolding delete_device_reply
handle_delete_device env r user s =
    let (s', found, e) =
      DeviceService.delete file_devices env user.id (path_string r "device_id") s in
    (s', delete_device_reply found e)

-- The routes under /devices that this file serves
pub data DeviceRoute : Type 0 where
  list : DeviceRoute
  bind : DeviceRoute
  get : DeviceRoute
  patch : DeviceRoute
  delete : DeviceRoute

-- The handler of a route
unfoldable pub route_device :
    DeviceJson → Env → DeviceRoute → Request → User → FileStore → FileStore × Response
unfolding handle_list_devices handle_bind_device handle_get_device handle_patch_device
    handle_delete_device
route_device json env list r user s = (s, handle_list_devices user s)
route_device json env bind r user s = handle_bind_device json env r user s
route_device json env get r user s = (s, handle_get_device r user s)
route_device json env patch r user s = handle_patch_device json env r user s
route_device json env delete r user s = handle_delete_device env r user s

-- A request to a route, behind `requireUserAuth`
unfoldable pub serve_device :
    Server → DeviceJson → Env → DeviceRoute → Request → FileStore → FileStore × Response
unfolding route_device
serve_device server json env route r s = elim (require_user_auth server r s) [
  | reply x ↦ (s, x)
  | valid user ↦ route_device json env route r user s
]
