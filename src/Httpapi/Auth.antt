-- ===== src/Httpapi/Auth.antt =====
-- internal/httpapi/auth.go, middleware.go and users.go: who a request comes from.
pub mod Admission
use Prim.Native.Char.{code}
use Prim.Native.String
use tinypanel_hub.Service.Users as UserService
use tinypanel_hub.Service.Devices as DeviceService
use tinypanel_hub.Service.Files.{file_users, file_devices}
use tinypanel_hub.Httpapi.Request.{
  Decoder, Request, Response, user_body, new_user_body, write_json, write_error, write_store_error,
  Checked, valid, reply, json_body,
}
use tinypanel_hub.Prelude.{
  ℕ, ◌+◌, ◌-◌, String, [], ◌∷◌, Option, none, some, Bool, not, ◌&&◌, ◌||◌, if◌then◌else◌, ◌==◌,
  eq_string, eq_int, eq_nat, nat_eq, leb, trim_space,
}
use tinypanel_hub.Domain.{User, Device}
use tinypanel_hub.Store.State.{FileStore, Env}

pub record CreateUser : Type 0 where
  pub name : String
  pub email : String
  pub api_token : String

-- `Server` and what its handlers take from outside: `token_hash` is SHA-256 in hexadecimal digits,
-- and `random_secret` the draw of `randomSecret` in this call.
pub record Server : Type 0 where
  pub api_token : String
  pub token_hash : String → String
  pub random_secret : String
  pub create_user_json : Decoder CreateUser

-- Two ASCII characters up to case, as `strings.EqualFold` compares those of "Bearer ".
abbrev lower : ℕ → ℕ
lower c = if leb 65 c && leb c 90 then c + 32 else c

-- The text after a prefix, up to case.
unfoldable pub cut_prefix_fold : String → String → Option String
cut_prefix_fold String.[] s = some s
cut_prefix_fold (String.◌∷◌ p ps) String.[] = none
cut_prefix_fold (String.◌∷◌ p ps) (String.◌∷◌ c s) =
    let rest = cut_prefix_fold ps s in
    if nat_eq (lower (code p)) (lower (code c)) then rest else none

unfoldable pub bearer_token : String → String
unfolding cut_prefix_fold
bearer_token header = elim (cut_prefix_fold "Bearer " header) [
  | none ↦ ""
  | some token ↦ trim_space token
]

abbrev pub admin_token : Request → String
admin_token r =
    let token = bearer_token (r.header "Authorization") in
    if token == "" then r.header "X-API-Token" else token

unfoldable pub admin_authorized : Server → Request → Bool
unfolding bearer_token
admin_authorized server r = server.api_token == "" || admin_token r == server.api_token

-- `requireUserAuth`: the user whose handler runs, or the refusal.
unfoldable pub require_user_auth : Server → Request → FileStore → Checked User
unfolding bearer_token write_error
require_user_auth server r s =
    let token = bearer_token (r.header "Authorization") in
    if token == ""
    then reply (write_error 401 "missing or invalid user token")
    else elim (UserService.by_token_hash file_users (server.token_hash token) s) [
      | none ↦ reply (write_error 401 "missing or invalid user token")
      | some user ↦ valid user
    ]

-- `requireDeviceAuth`
unfoldable pub require_device_auth : Server → Request → FileStore → Checked Device
unfolding write_error
require_device_auth server r s =
    let device_id = r.header "X-Device-ID" in
    let secret = r.header "X-Device-Secret" in
    if device_id == "" || secret == ""
    then reply (write_error 401 "missing or invalid device credentials")
    else elim (DeviceService.by_credentials file_devices device_id (server.token_hash secret) s) [
      | none ↦ reply (write_error 401 "missing or invalid device credentials")
      | some device ↦ valid device
    ]

unfoldable pub public_user : User → User
public_user user = record user { api_token_hash = "" }

abbrev pub new_token : Server → String → String
new_token server api_token =
    if trim_space api_token == "" then server.random_secret else trim_space api_token

-- `handleCreateUser` behind `requireAdminAuth`
unfoldable pub handle_create_user : Server → Env → Request → FileStore → FileStore × Response
unfolding admin_authorized json_body write_error public_user
handle_create_user server env r s =
    if not (admin_authorized server r)
    then (s, write_error 401 "missing or invalid admin token")
    else elim (json_body server.create_user_json r) [
      | reply x ↦ (s, x)
      | valid req ↦
          let token = new_token server req.api_token in
          let (s', user, e) =
            UserService.create file_users env (trim_space req.name) (trim_space req.email)
              (server.token_hash token) s in
          elim e [
            | some _ ↦ (s', write_store_error)
            | none ↦ (s', write_json 201 (new_user_body (public_user user) token))
          ]
    ]

-- `handleMe`
unfoldable pub handle_me : User → Response
unfolding public_user
handle_me user = write_json 200 (user_body (public_user user))
