-- ===== src/Httpapi/Devices/Public.antt =====
-- The hashes that internal/httpapi/public.go keeps out of the responses.
use tinypanel_hub.Httpapi.Request.{
  Decoder, Request, Response, Payload, user_body, new_user_body, device_body, devices_body,
  write_error, reply, json_body, read_json, path_string, Checked-cases, reply_valid, reply_eq,
}
use tinypanel_hub.Httpapi.Auth.{Server, require_user_auth, bearer_token}
use tinypanel_hub.Httpapi.Devices.{
  DeviceJson, public_device, public_devices, bind_reply, update_device_reply, delete_device_reply,
  handle_list_devices, handle_get_device, handle_bind_device, handle_patch_device,
  handle_delete_device, DeviceRoute, list, bind, get, patch, delete, route_device, serve_device,
}
use tinypanel_hub.Store.Users.{user_by_token_hash}
use tinypanel_hub.Store.Devices.{device, devices, BindResult, unknown_code, refused, failed, bound}
use tinypanel_hub.Prelude.{
  ℕ, String, List, [], ◌∷◌, Option, none, some, Bool, true, false, ◌==◌, eq_string, eq_int, eq_nat,
  trim_space, ◌≡◌, refl, sym, All, Bool-cases, Option-cases, inl, inr,
}
use tinypanel_hub.Domain.{User, Device}
use tinypanel_hub.Store.State.{Error, error_text, Result, ok, err, FileStore, Env, Result-cases}

-- A body without the hash of a secret or a token.
abbrev pub IsPublic : Payload → Type 0
IsPublic (user_body u) = u.api_token_hash ≡ ""
IsPublic (new_user_body u token) = u.api_token_hash ≡ ""
IsPublic (device_body d) = d.secret_hash ≡ ""
IsPublic (devices_body ds) = All (λ (d : Device). d.secret_hash ≡ "") ds
IsPublic _ = Unit

error-IsPublic : (status : ℕ) (text : String) → IsPublic (write_error status text).payload
unfolding write_error
error-IsPublic status text = tt

public_devices-IsPublic : (ds : List Device) → IsPublic (devices_body (public_devices ds))
unfolding public_device
public_devices-IsPublic [] = tt
public_devices-IsPublic (d ∷ ds) = (refl, public_devices-IsPublic ds)

bind_reply-IsPublic : (b : BindResult) → IsPublic (bind_reply b).payload
unfolding bind_reply public_device write_error
bind_reply-IsPublic unknown_code = tt
bind_reply-IsPublic refused = tt
bind_reply-IsPublic (failed e) = tt
bind_reply-IsPublic (bound d) = refl

update_device_reply-IsPublic :
    (u : Option (Result Device)) → IsPublic (update_device_reply u).payload
unfolding update_device_reply public_device write_error
update_device_reply-IsPublic none = tt
update_device_reply-IsPublic (some (err e)) = tt
update_device_reply-IsPublic (some (ok d)) = refl

delete_device_reply-IsPublic :
    (found : Bool) (e : Option Error) → IsPublic (delete_device_reply found e).payload
unfolding delete_device_reply write_error
delete_device_reply-IsPublic found (some e) = tt
delete_device_reply-IsPublic false none = tt
delete_device_reply-IsPublic true none = tt

json_body-IsPublic :
    {A : Type 0} (dec : Decoder A) (r : Request) (x : Response)
    → json_body dec r ≡ reply x
    → IsPublic x.payload
unfolding json_body
json_body-IsPublic dec r x h = elim (Result-cases (read_json dec r)) [
  | inl (a, e) ↦ absurd (reply_valid (sym (rw (e, json_body) at h)))
  | inr (y, e) ↦ rw⁻¹ (reply_eq (rw (e, json_body) at h)) (error-IsPublic 400 (error_text y))
]

module _ (json : DeviceJson) (env : Env) (r : Request) (user : User) (s : FileStore) where
  get-IsPublic : IsPublic (handle_get_device r user s).payload
  unfolding handle_get_device public_device write_error
  get-IsPublic = elim (Option-cases (device user.id (path_string r "device_id") s)) [
    | inl e ↦ rw (e, handle_get_device) tt
    | inr (d, e) ↦ rw (e, handle_get_device) refl
  ]

  bind-IsPublic : IsPublic (handle_bind_device json env r user s).1.payload
  unfolding handle_bind_device write_error
  bind-IsPublic = elim (Checked-cases (json_body json.bind_json r)) [
    | inr (x, e) ↦ rw (e, handle_bind_device) (json_body-IsPublic json.bind_json r x e)
    | inl (req, e) ↦ elim (Bool-cases (trim_space req.bind_code == "")) [
      | inl f ↦ rw (e, handle_bind_device) (rw f tt)
      | inr f ↦ rw (e, handle_bind_device) (rw f (bind_reply-IsPublic _))
    ]
  ]

  patch-IsPublic : IsPublic (handle_patch_device json env r user s).1.payload
  unfolding handle_patch_device write_error
  patch-IsPublic = elim (Checked-cases (json_body json.patch_device_json r)) [
    | inr (x, e) ↦ rw (e, handle_patch_device) (json_body-IsPublic json.patch_device_json r x e)
    | inl (req, e) ↦ elim (Bool-cases (trim_space req.name == "")) [
      | inl f ↦ rw (e, handle_patch_device) (rw f tt)
      | inr f ↦ rw (e, handle_patch_device) (rw f (update_device_reply-IsPublic _))
    ]
  ]

  route_device-IsPublic :
      (route : DeviceRoute) → IsPublic (route_device json env route r user s).1.payload
  unfolding route_device handle_list_devices handle_delete_device
  route_device-IsPublic list = public_devices-IsPublic (devices user.id s)
  route_device-IsPublic bind = bind-IsPublic
  route_device-IsPublic get = get-IsPublic
  route_device-IsPublic patch = patch-IsPublic
  route_device-IsPublic delete = delete_device_reply-IsPublic _ _

require_user_auth-IsPublic :
    (server : Server) (r : Request) (s : FileStore) (x : Response)
    → require_user_auth server r s ≡ reply x
    → IsPublic x.payload
unfolding require_user_auth write_error
require_user_auth-IsPublic server r s x h =
    let token = bearer_token (r.header "Authorization") in
    elim (Bool-cases (token == "")) [
      | inl e ↦ rw⁻¹ (reply_eq (rw (e, require_user_auth) at h)) tt
      | inr e ↦ elim (Option-cases (user_by_token_hash (server.token_hash token) s)) [
        | inl f ↦ rw⁻¹ (reply_eq (rw f at rw (e, require_user_auth) at h)) tt
        | inr (u, f) ↦ absurd (reply_valid (sym (rw f at rw (e, require_user_auth) at h)))
      ]
    ]

-- No response of a device route, to any request, has the secret's hash of a device.
pub serve_device-IsPublic :
    (server : Server) (json : DeviceJson) (env : Env) (route : DeviceRoute) (r : Request)
    (s : FileStore)
    → IsPublic (serve_device server json env route r s).1.payload
unfolding serve_device
serve_device-IsPublic server json env route r s =
    elim (Checked-cases (require_user_auth server r s)) [
      | inr (x, e) ↦ rw (e, serve_device) (require_user_auth-IsPublic server r s x e)
      | inl (user, e) ↦ rw (e, serve_device) (route_device-IsPublic json env r user s route)
    ]
