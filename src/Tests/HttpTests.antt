-- ===== src/Tests/HttpTests.antt =====
-- The handlers of internal/httpapi at concrete requests.
use Prim.Native.String
use tinypanel_hub.Httpapi.Request.{
  Decoder, Request, new_user_body, inbox_body, write_json, write_error, valid, valid_eq, read_json,
  json_body,
}
use tinypanel_hub.Httpapi.Auth.{
  Server, bearer_token, cut_prefix_fold, admin_authorized, require_user_auth, require_device_auth,
  public_user, handle_create_user,
}
use tinypanel_hub.Httpapi.Auth.Admission.{require_device_auth_lem}
use tinypanel_hub.Httpapi.Api.Users.{LetIn, handle_create_user-require_user_auth}
use tinypanel_hub.Store.Reachable.{Step, Reach, here, next}
use tinypanel_hub.Httpapi.Todos.{TodoJson, post, serve_todo}
use tinypanel_hub.Httpapi.Todos.Access.{serve_todo-todos}
use tinypanel_hub.Httpapi.Todos.Validation.{IsTodo, serve_todo-IsTodo}
use tinypanel_hub.Httpapi.Devices.{DeviceJson, DeviceRoute, serve_device}
use tinypanel_hub.Httpapi.Devices.Access.{serve_device-devices}
use tinypanel_hub.Httpapi.Devices.Public.{IsPublic, serve_device-IsPublic}
use tinypanel_hub.Httpapi.Telemetry.{TelemetryJson, TelemetryRoute, serve_telemetry}
use tinypanel_hub.Httpapi.Telemetry.Reports.{Reported, serve_telemetry-Reported}
use tinypanel_hub.Httpapi.Messages.{serve_inbox}
use tinypanel_hub.Httpapi.Messages.Inbox.{WaitsFor, serve_inbox_lem}
use tinypanel_hub.Httpapi.Snapshots.{ReadRoute, serve_read}
use tinypanel_hub.Httpapi.Snapshots.Own.{IsOwn}
use tinypanel_hub.Httpapi.Snapshots.Reads.{serve_read-IsOwn}
use tinypanel_hub.Store.Commit.{commit}
use tinypanel_hub.Store.File.{save}
use tinypanel_hub.Store.Users.{user_by_token_hash, create_user, new_user}
use tinypanel_hub.Store.Todos.{todos, add_todo}
use tinypanel_hub.Store.Devices.{devices, device_by_credentials}
use tinypanel_hub.Prelude.{trim_space, trim_left, trim_right, is_space}
use tinypanel_hub.Tests.Fixtures.{sample_telemetry, alice, bob, panel, sample_data, env, store}
use tinypanel_hub.Prelude.{
  ℕ, ◌≤◌, String, List, [], ◌∷◌, none, some, pos, if◌then◌else◌, ◌==◌, eq_string, eq_int, eq_nat,
  length, trim_space, ◌≡◌, refl, sym, ◌∙◌, arith, All, ne_of_==, ◌≢◌, ◌⊎◌,
}
use tinypanel_hub.Domain.{Message, User, Device}
use tinypanel_hub.Store.State.{ok, FileStore}

abbrev bob_user : User
bob_user = record { id = bob; name = "bob"; email = ""; api_token_hash = "#t"; created_at = 1 }

abbrev pub with_bob : FileStore
with_bob = record store { contents = record sample_data { users = bob_user ∷ [] } }

-- A decoder that knows one value, for a text that is not empty.
abbrev pub always : {A : Type 0} → A → Decoder A
always a = record { first = λ _. ok (a, ""); at_end = λ rest. rest == "" }

abbrev pub server : Server
server = record {
  api_token = "admin";
  token_hash = λ t. String.◌++◌ "#" t;
  random_secret = "drawn";
  create_user_json = always (record { name = " eve "; email = ""; api_token = "" });
}

abbrev pub todo_json : TodoJson
todo_json = record {
  post_todo_json = always (record { text = " buy milk "; status = pos 0 });
  patch_todo_json = always (record { version = pos 1; text = none; status = some (pos 2) });
  delete_todo_json = always (record { version = pos 1 });
}

abbrev pub device_json : DeviceJson
device_json = record {
  hello_json = always (record { device_id = "new" });
  bind_json = always (record { bind_code = "111111"; name = "" });
  patch_device_json = always (record { name = "hall" });
}

abbrev headers : String → String
headers name =
    if name == "Authorization"
    then "bearer t"
    else if name == "X-Device-ID"
    then "panel"
    else if name == "X-Device-Secret"
    then "s"
    else ""

abbrev pub request : Request
request = record {
  header = headers;
  path = λ name. if name == "id" then "1" else "panel";
  query = λ name. if name == "limit" then "1000" else "";
  body = some "{}";
}

bob_let_in : require_user_auth server request with_bob ≡ valid bob_user
unfolding require_user_auth bearer_token cut_prefix_fold user_by_token_hash trim_space trim_left
    trim_right is_space
bob_let_in = refl

not_alice : (user : User) → require_user_auth server request with_bob ≡ valid user → user.id ≢ alice
not_alice user h = rw⁻¹ (valid_eq (sym bob_let_in ∙ h)) (ne_of_== bob alice refl)

serve_todo-todos_example :
    todos alice (serve_todo server todo_json env post request with_bob).0 ≡ todos alice with_bob
serve_todo-todos_example =
    serve_todo-todos server todo_json env post request alice with_bob not_alice

chores : All IsTodo with_bob.contents.todos
unfolding trim_space trim_left trim_right is_space
chores =
    (((ne_of_== "water" "" refl, omega arith, ("water", refl)), (omega arith, omega arith)), tt)

serve_todo-IsTodo_example :
    All IsTodo (serve_todo server todo_json env post request with_bob).0.contents.todos
serve_todo-IsTodo_example = serve_todo-IsTodo server todo_json env post request with_bob chores

serve_device-devices_example :
    devices alice (serve_device server device_json env DeviceRoute.delete request with_bob).0
    ≡ devices alice with_bob
serve_device-devices_example =
    serve_device-devices server device_json env DeviceRoute.delete request alice with_bob
      (ne_of_== alice "" refl) not_alice

serve_device-IsPublic_example :
    IsPublic (serve_device server device_json env DeviceRoute.bind request with_bob).1.payload
serve_device-IsPublic_example =
    serve_device-IsPublic server device_json env DeviceRoute.bind request with_bob

serve_read-IsOwn_example :
    (serve_read server env none ReadRoute.snapshots request with_bob with_bob store
      ≡ write_error 401 "missing or invalid user token")
    ⊎ ((user : User) × (require_user_auth server request with_bob ≡ valid user)
        × IsOwn with_bob user.id
            (serve_read server env none ReadRoute.snapshots request with_bob with_bob
              store).payload)
serve_read-IsOwn_example =
    serve_read-IsOwn server env none ReadRoute.snapshots request with_bob with_bob store
      (ne_of_== bob "" refl, tt)

-- The panel with the hash of its secret.
abbrev with_panel : FileStore
with_panel = record store {
  contents = record sample_data { devices = record panel { secret_hash = "#s" } ∷ [] };
}

panel_let_in :
    require_device_auth server request with_panel ≡ valid (record panel { secret_hash = "#s" })
unfolding require_device_auth device_by_credentials
panel_let_in = refl

require_device_auth_lem_example :
    (request.header "X-Device-Secret" ≢ "")
    × (panel.id ≡ request.header "X-Device-ID")
    × (◌≡◌ {A = String} "#s" (server.token_hash (request.header "X-Device-Secret")))
require_device_auth_lem_example =
    require_device_auth_lem server request with_panel (record panel { secret_hash = "#s" })
      panel_let_in

serve_inbox_lem_example :
    (serve_inbox server request with_panel
      ≡ write_error 401 "missing or invalid device credentials")
    ⊎ ((d : Device) × (ms : List Message) × (require_device_auth server request with_panel
          ≡ valid d)
        × (serve_inbox server request with_panel ≡ write_json 200 (inbox_body "panel" ms))
        × All (WaitsFor "panel") ms
        × (length ms ≤ 100))
serve_inbox_lem_example = serve_inbox_lem server request with_panel

abbrev pub telemetry_json : TelemetryJson
telemetry_json = record {
  telemetry_json = always sample_telemetry;
  batch_json = always (record { items = sample_telemetry ∷ sample_telemetry ∷ [] });
}

serve_telemetry-Reported_example :
    (n : ℕ) × (n ≤ 100)
    × Reported "panel"
        (λ _. env)
        with_panel
        n
        (serve_telemetry server telemetry_json (λ _. env) TelemetryRoute.batch request with_panel).0
serve_telemetry-Reported_example =
    serve_telemetry-Reported server telemetry_json (λ _. env) TelemetryRoute.batch request
      with_panel

-- The administrator's request for a new user, and a request that bears the token it was answered.
abbrev pub admin : Request
admin = record request { header = λ name. if name == "X-API-Token" then "admin" else "" }

abbrev bears_drawn : Request
bears_drawn = record request {
  header = λ name. if name == "Authorization" then "Bearer drawn" else "";
}

created :
    (r : FileStore × User) × (handle_create_user server env admin with_bob
      ≡ (r.0, write_json 201 (new_user_body r.1 "drawn")))
unfolding handle_create_user admin_authorized bearer_token cut_prefix_fold json_body read_json
    create_user new_user public_user commit save trim_space trim_left trim_right is_space
created = ((_, _), refl)

drawn_token : bearer_token (bears_drawn.header "Authorization") ≡ "drawn"
unfolding bearer_token cut_prefix_fold trim_space trim_left trim_right is_space
drawn_token = refl

drawn_unknown : user_by_token_hash (server.token_hash "drawn") with_bob ≡ none
unfolding user_by_token_hash
drawn_unknown = refl

-- Somebody adds a todo after the creation.
abbrev after_creation : FileStore
after_creation = (add_todo env alice "tea" (pos 0) created.0.0).0

todo_added : Reach created.0.0 1 after_creation
todo_added = next here (Step.add env alice "tea" (pos 0) refl)

handle_create_user-require_user_auth_example :
    ((v : User) × (require_user_auth server bears_drawn after_creation ≡ valid v)
      × (public_user v ≡ created.0.1))
    × LetIn server after_creation ((request, bob_user) ∷ [])
handle_create_user-require_user_auth_example =
    handle_create_user-require_user_auth server env admin bears_drawn with_bob created.0.0
      after_creation created.0.1 "drawn" 1 ((request, bob_user) ∷ []) created.1 drawn_token
      (ne_of_== "drawn" "" refl) drawn_unknown todo_added (bob_let_in, tt)
