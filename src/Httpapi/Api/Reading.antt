-- ===== src/Httpapi/Api/Reading.antt =====
-- What the routes that only read (internal/httpapi/router.go) show a user.
use tinypanel_hub.Httpapi.Request.{
  Request, Response, Payload, user_body, device_body, devices_body, todo_body, todos_body,
  messages_body, error_detail, write_error, reply, valid, parse_int, path_string, path_id,
  Checked-cases, reply_eq, reply_valid,
}
use tinypanel_hub.Httpapi.Auth.{require_user_auth, handle_me, public_user}
use tinypanel_hub.Httpapi.Auth.Admission.{require_user_auth-reply, require_user_auth-In}
use tinypanel_hub.Httpapi.Todos.{
  TodoRoute, handle_get_todos, handle_get_todo, route_todo, serve_todo,
}
use tinypanel_hub.Httpapi.Devices.{
  DeviceRoute, public_device, handle_list_devices, handle_get_device, route_device, serve_device,
}
use tinypanel_hub.Httpapi.Messages.{handle_list_device_messages}
use tinypanel_hub.Httpapi.Snapshots.{ReadRoute, serve_read}
use tinypanel_hub.Httpapi.Snapshots.Own.{IsOwn, IsOwnMessage, IsOwnTodo}
use tinypanel_hub.Httpapi.Snapshots.Reads.{route_read-IsOwn}
use tinypanel_hub.Httpapi.Api.{
  Hub, Call, Route, me, reads, devices, messages, todos, listing, serve_me, route_message,
  serve_message, serve_route, serve,
}
use tinypanel_hub.Store.Devices.{device, devices as owner_devices}
use tinypanel_hub.Store.Todos.{todo, todos as owner_todos}
use tinypanel_hub.Store.Messages.{device_messages}
use tinypanel_hub.Store.Messages.Listing.{collect-All}
use tinypanel_hub.Prelude.{
  String, reverse, some, pos, ◌&&◌, ◌==◌, eq_string, eq_int, eq_nat, leb_ℤ, ◌≡◌, refl, sym, All,
  All-map, All-filter_test, All-In, find?-test, Bool-cases, Option-cases, eq_iff, eq_ℤ_iff, ◌≢◌,
  ◌⊎◌, inl, inr, arith,
}
use tinypanel_hub.Domain.{User, Device}
use tinypanel_hub.Store.State.{FileStore}

-- The routes behind `requireUserAuth` that only read
pub data IsUserRead : Route → Type 0 where
  own_user : IsUserRead me
  own_data : (route : ReadRoute) → IsUserRead (reads route)
  device_list : IsUserRead (devices DeviceRoute.list)
  one_device : IsUserRead (devices DeviceRoute.get)
  message_list : IsUserRead (messages listing)
  todo_list : IsUserRead (todos TodoRoute.list)
  one_todo : IsUserRead (todos TodoRoute.get)

-- A device of the owner, without the hash of its secret.
abbrev pub IsOwnDevice : String → Device → Type 0
IsOwnDevice owner_id d = (d.owner_id ≡ owner_id) × (d.secret_hash ≡ "")

-- A body that is the user, a device, a todo or messages of the user, or an error.
abbrev pub IsOwnBody : String → Payload → Type 0
IsOwnBody owner_id (user_body u) = (u.id ≡ owner_id) × (u.api_token_hash ≡ "")
IsOwnBody owner_id (device_body d) = IsOwnDevice owner_id d
IsOwnBody owner_id (devices_body ds) = All (IsOwnDevice owner_id) ds
IsOwnBody owner_id (todo_body t) = IsOwnTodo owner_id t
IsOwnBody owner_id (todos_body ts) = All (IsOwnTodo owner_id) ts
IsOwnBody owner_id (messages_body ms) = All (IsOwnMessage owner_id) ms
IsOwnBody owner_id (error_detail detail_code text) = Unit
IsOwnBody owner_id _ = ⊥

abbrev pub ShowsOwn : FileStore → String → Response → Type 0
ShowsOwn s owner_id x = IsOwn s owner_id x.payload ⊎ IsOwnBody owner_id x.payload

path_id-IsOwnBody :
    (r : Request) (name owner_id : String) (x : Response)
    → path_id r name ≡ reply x
    → IsOwnBody owner_id x.payload
unfolding path_id write_error
path_id-IsOwnBody r name owner_id x h = elim (Option-cases (parse_int (path_string r name))) [
  | inl e ↦ rw⁻¹ (reply_eq (rw (e, path_id) at h)) tt
  | inr (id, e) ↦ elim (Bool-cases (leb_ℤ id (pos 0))) [
    | inl f ↦ rw⁻¹ (reply_eq (rw f at rw (e, path_id) at h)) tt
    | inr f ↦ absurd (reply_valid (sym (rw f at rw (e, path_id) at h)))
  ]
]

module _ (r : Request) (user : User) (s : FileStore) where
  handle_list_devices-IsOwnBody : IsOwnBody user.id (handle_list_devices user s).payload
  unfolding handle_list_devices owner_devices public_device
  handle_list_devices-IsOwnBody =
      All-map public_device (IsOwnDevice user.id) (owner_devices user.id s) (
        All-filter_test (λ (d : Device). (d.owner_id ≡ user.id) × (◌≡◌ {A = String} "" ""))
          (λ d. d.owner_id == user.id) s.contents.devices
          λ d h. ((eq_iff d.owner_id user.id).0 h, refl))

  handle_get_device-IsOwnBody : IsOwnBody user.id (handle_get_device r user s).payload
  unfolding handle_get_device public_device write_error device
  handle_get_device-IsOwnBody =
      let id = path_string r "device_id" in
      elim (Option-cases (device user.id id s)) [
        | inl e ↦ rw (e, handle_get_device) tt
        | inr (d, e) ↦
            let test = find?-test _ s.contents.devices d e in
            let owned : d.owner_id ≡ user.id =
              ground (arith, test, eq_iff d.owner_id user.id, eq_iff d.id id) in
            rw (e, handle_get_device) (owned, refl)
      ]

  handle_list_device_messages-IsOwnBody :
      IsOwnBody user.id (handle_list_device_messages r user s).payload
  unfolding handle_list_device_messages write_error device_messages
  handle_list_device_messages-IsOwnBody =
      let id = path_string r "device_id" in
      elim (Option-cases (device user.id id s)) [
        | inl e ↦ rw (e, handle_list_device_messages) tt
        | inr (d, e) ↦
            rw (e, handle_list_device_messages)
              (collect-All (IsOwnMessage user.id) (λ m. m.owner_id == user.id && m.device_id == id)
                _ (reverse s.contents.messages)
                λ m h. ground (arith, h, eq_iff m.owner_id user.id, eq_iff m.device_id id))
      ]

  handle_get_todos-IsOwnBody : IsOwnBody user.id (handle_get_todos user s).payload
  unfolding handle_get_todos owner_todos
  handle_get_todos-IsOwnBody =
      All-filter_test (IsOwnTodo user.id) (λ t. t.owner_id == user.id) s.contents.todos
        λ t h. (eq_iff t.owner_id user.id).0 h

  handle_get_todo-IsOwnBody : IsOwnBody user.id (handle_get_todo r user s).payload
  unfolding handle_get_todo write_error todo
  handle_get_todo-IsOwnBody = elim (Checked-cases (path_id r "id")) [
    | inr (x, e) ↦ rw (e, handle_get_todo) (path_id-IsOwnBody r "id" user.id x e)
    | inl (id, e) ↦ elim (Option-cases (todo user.id id s)) [
      | inl f ↦ rw (e, handle_get_todo) (rw f tt)
      | inr (t, f) ↦
          let test = find?-test _ s.contents.todos t f in
          let owned : t.owner_id ≡ user.id =
            ground (arith, test, eq_iff t.owner_id user.id, eq_ℤ_iff t.id id) in
          rw (e, handle_get_todo) (rw f owned)
    ]
  ]

-- A request that changes nothing and is answered by what is the owner's.
abbrev Shown : Hub → Call → Route → FileStore → String → Type 0
Shown hub c route s owner_id =
    (x : Response) × (serve_route hub c route s ≡ some (s, x)) × ShowsOwn s owner_id x

module _ (hub : Hub) (c : Call) (s : FileStore) (user : User)
    (e : require_user_auth hub.server c.request s ≡ valid user) (named : user.id ≢ "") where
  shown : (route : Route) → IsUserRead route → Shown hub c route s user.id
  unfolding serve_route serve_me serve_read serve_device serve_message serve_todo route_device
      route_message route_todo handle_me public_user
  shown route own_user = rw (e, serve_me) (handle_me user, refl, inr (refl, refl))
  shown route (own_data read) =
      rw (e, serve_read)
        (_, refl, inl (route_read-IsOwn (c.envs 0) c.provider c.request user s s read named))
  shown route device_list =
      rw (e, serve_device) (_, refl, inr (handle_list_devices-IsOwnBody c.request user s))
  shown route one_device =
      rw (e, serve_device) (_, refl, inr (handle_get_device-IsOwnBody c.request user s))
  shown route message_list =
      rw (e, serve_message) (_, refl, inr (handle_list_device_messages-IsOwnBody c.request user s))
  shown route todo_list =
      rw (e, serve_todo) (_, refl, inr (handle_get_todos-IsOwnBody c.request user s))
  shown route one_todo =
      rw (e, serve_todo) (_, refl, inr (handle_get_todo-IsOwnBody c.request user s))

refusal :
    (hub : Hub) (c : Call) (s : FileStore) (x : Response)
    → require_user_auth hub.server c.request s ≡ reply x
    → (route : Route) → IsUserRead route
    → serve_route hub c route s ≡ some (s, x)
unfolding serve_route serve_me serve_read serve_device serve_message serve_todo
refusal hub c s x e route own_user = rw (e, serve_me) refl
refusal hub c s x e route (own_data read) = rw (e, serve_read) refl
refusal hub c s x e route device_list = rw (e, serve_device) refl
refusal hub c s x e route one_device = rw (e, serve_device) refl
refusal hub c s x e route message_list = rw (e, serve_message) refl
refusal hub c s x e route todo_list = rw (e, serve_todo) refl
refusal hub c s x e route one_todo = rw (e, serve_todo) refl

-- Every request to one of the nine routes of a user that only read (/me, the snapshot, the weather,
-- the devices, one device, its messages, its telemetry, the todos and one todo) changes nothing, and
-- is refused with 401, or let in as a user and answered by an error or by what is this user's: the
-- user without the hash of the token, the user's own devices without the hash of their secret, own
-- messages and todos, records of own devices, and the weather. The users of the store have
-- identifiers.
pub serve-ShowsOwn :
    (hub : Hub) (c : Call) (s : FileStore)
    → IsUserRead c.route
    → All (λ (u : User). u.id ≢ "") s.contents.users
    → (serve hub c s ≡ some (s, write_error 401 "missing or invalid user token"))
      ⊎ ((user : User) × (x : Response) × (require_user_auth hub.server c.request s ≡ valid user)
          × (serve hub c s ≡ some (s, x))
          × ShowsOwn s user.id x)
unfolding serve
serve-ShowsOwn hub c s reading named =
    elim (Checked-cases (require_user_auth hub.server c.request s)) [
      | inr (x, e) ↦ inl (
          rw⁻¹ (require_user_auth-reply hub.server c.request s x e)
            (refusal hub c s x e c.route reading))
      | inl (user, e) ↦
          let user_named =
            All-In (λ (u : User). u.id ≢ "") user s.contents.users named
              (require_user_auth-In hub.server c.request s user e) in
          let (x, same, own) = shown hub c s user e user_named c.route reading in
          inr (user, x, e, same, own)
    ]
