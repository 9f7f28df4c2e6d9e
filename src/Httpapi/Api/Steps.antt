-- ===== src/Httpapi/Api/Steps.antt =====
-- What the handlers of internal/httpapi do to the store, as operations of internal/store.
use mathlib.Core.Option
use tinypanel_hub.Httpapi.Request.{Request, Response, Checked-cases, json_body, path_string}
use tinypanel_hub.Httpapi.Auth.{Server, handle_create_user, admin_authorized, new_token}
use tinypanel_hub.Httpapi.Todos.{TodoJson, TodoRoute, route_todo}
use tinypanel_hub.Httpapi.Todos.Effects.{
  TodoEffect, nothing, added, patched, removed, route_todo-TodoEffect,
}
use tinypanel_hub.Httpapi.Devices.{
  DeviceJson, DeviceRoute, list, bind, get, patch, delete, hello_id, handle_device_hello,
  handle_bind_device, handle_patch_device, handle_delete_device, route_device,
}
use tinypanel_hub.Httpapi.Messages.{
  MessageJson, create_message, checked_message, handle_create_device_message, checked_ids,
  handle_device_ack_messages,
}
use tinypanel_hub.Httpapi.Api.{MessageRoute, listing, creation, route_message}
use tinypanel_hub.Store.Users.{create_user}
use tinypanel_hub.Store.Devices.{device}
use tinypanel_hub.Store.Devices.Preservation.{IsNonempty}
use tinypanel_hub.Store.Messages.{add_device_message, ack_device_messages}
use tinypanel_hub.Store.Reachable.{Step, Reach, here, next}
use tinypanel_hub.Prelude.{
  ℕ, ◌≤◌, String, some, some_eq, ◌==◌, eq_string, eq_int, eq_nat, trim_space, ◌≡◌, refl, arith, All,
  Bool-cases, Option-cases, ◌≢◌, inl, inr,
}
use tinypanel_hub.Domain.{User, Device}
use tinypanel_hub.Store.State.{FileStore, Env}

-- At most 100 operations lead from one store to the other.
abbrev pub Steps : FileStore → FileStore → Type 0
Steps s s' = (n : ℕ) × (n ≤ 100) × Reach s n s'

pub no_step : {s : FileStore} → Steps s s
no_step = (0, omega arith, here)

pub single-Step : {s s' : FileStore} → Step s s' → Steps s s'
single-Step step = (1, omega arith, next here step)

create_message-Steps :
    (env : Env) (user : User) (device_id body priority : String) (s : FileStore)
    → Steps s (create_message env user device_id body priority s).0
unfolding create_message
create_message-Steps env user device_id body priority s =
    let sent = add_device_message env user.id device_id user.id body priority s in
    elim (Option-cases sent.2) [
      | inl e ↦ rw (e, create_message) (single-Step (Step.send env _ _ _ _ _ refl))
      | inr (x, e) ↦ rw (e, create_message) (single-Step (Step.send env _ _ _ _ _ refl))
    ]

module _ (env : Env) (r : Request) (s : FileStore) where
  pub create_user-Steps : (server : Server) → Steps s (handle_create_user server env r s).0
  unfolding handle_create_user
  create_user-Steps server = elim (Bool-cases (admin_authorized server r)) [
    | inr e ↦ rw (e, handle_create_user) no_step
    | inl e ↦ elim (Checked-cases (json_body server.create_user_json r)) [
      | inr (x, f) ↦ rw (e, handle_create_user) (rw f no_step)
      | inl (req, f) ↦
          let made =
            create_user env (trim_space req.name) (trim_space req.email)
              (server.token_hash (new_token server req.api_token)) s in
          rw (e, handle_create_user)
            (rw f (elim (Option-cases made.2) [
              | inl g ↦ rw g (single-Step (Step.users env _ _ _ refl))
              | inr (x, g) ↦ rw g (single-Step (Step.users env _ _ _ refl))
            ]))
    ]
  ]

  pub hello-Steps :
      (server : Server) (json : DeviceJson) (a : FileStore × Response)
      → All IsNonempty env.codes
      → handle_device_hello server json env r s ≡ some a
      → Steps s a.0
  unfolding handle_device_hello
  hello-Steps server json a codes h = elim (Checked-cases (hello_id json r)) [
    | inr (x, e) ↦ rw⁻¹ (some_eq (rw (e, handle_device_hello) at h)) no_step
    | inl (device_id, e) ↦
        let (made, answered, same) =
          (Option.map-eq-some_iff _ _).0 (rw (e, handle_device_hello) at h) in
        rw⁻¹ same (single-Step (Step.hello env device_id _ made codes answered refl))
  ]

  module _ (user : User) (named : user.id ≢ "") where
    pub todo-Steps :
        (json : TodoJson) (route : TodoRoute) → Steps s (route_todo json env route r user s).0
    todo-Steps json route = by_effect _ (route_todo-TodoEffect json env r user s route)
      where
        by_effect : (s' : FileStore) → TodoEffect env user s s' → Steps s s'
        by_effect s' (nothing e) = rw e no_step
        by_effect s' (added text status p q e) = single-Step (Step.add env user.id text status e)
        by_effect s' (patched id version p q e) =
            single-Step (Step.patch env user.id id version p e)
        by_effect s' (removed id version e) = single-Step (Step.delete env user.id id version e)

    pub device-Steps :
        (json : DeviceJson) (route : DeviceRoute) → Steps s (route_device json env route r user s).0
    unfolding route_device handle_bind_device handle_patch_device handle_delete_device
    device-Steps json list = no_step
    device-Steps json bind = elim (Checked-cases (json_body json.bind_json r)) [
      | inr (x, e) ↦ rw (e, handle_bind_device) no_step
      | inl (req, e) ↦ elim (Bool-cases (trim_space req.bind_code == "")) [
        | inl f ↦ rw (e, handle_bind_device) (rw f no_step)
        | inr f ↦
            rw (e, handle_bind_device) (rw f (single-Step (Step.bind env user.id _ _ named refl)))
      ]
    ]
    device-Steps json get = no_step
    device-Steps json patch = elim (Checked-cases (json_body json.patch_device_json r)) [
      | inr (x, e) ↦ rw (e, handle_patch_device) no_step
      | inl (req, e) ↦ elim (Bool-cases (trim_space req.name == "")) [
        | inl f ↦ rw (e, handle_patch_device) (rw f no_step)
        | inr f ↦
            rw (e, handle_patch_device) (rw f (single-Step (Step.rename env user.id _ _ refl)))
      ]
    ]
    device-Steps json delete = single-Step (Step.unregister env user.id _ refl)

    pub message-Steps :
        (json : MessageJson) (route : MessageRoute)
        → Steps s (route_message json env route r user s).0
    unfolding route_message handle_create_device_message
    message-Steps json listing = no_step
    message-Steps json creation =
        let device_id = path_string r "device_id" in
        elim (Option-cases (device user.id device_id s)) [
          | inl e ↦ rw (e, handle_create_device_message) no_step
          | inr (d, e) ↦ elim (Checked-cases (json_body json.create_message_json r)) [
            | inr (x, f) ↦ rw (e, handle_create_device_message) (rw f no_step)
            | inl (req, f) ↦ elim (Checked-cases (checked_message req)) [
              | inr (x, g) ↦ rw (e, handle_create_device_message) (rw f (rw g no_step))
              | inl ((body, priority), g) ↦
                  rw (e, handle_create_device_message)
                    (rw f (rw g (create_message-Steps env user device_id body priority s)))
            ]
          ]
        ]

  pub ack-Steps :
      (json : MessageJson) (d : Device) → Steps s (handle_device_ack_messages json env r d s).0
  unfolding handle_device_ack_messages
  ack-Steps json d = elim (Checked-cases (json_body json.ack_messages_json r)) [
    | inr (x, e) ↦ rw (e, handle_device_ack_messages) no_step
    | inl (req, e) ↦ elim (Checked-cases (checked_ids req.message_ids)) [
      | inr (x, f) ↦ rw (e, handle_device_ack_messages) (rw f no_step)
      | inl (ids, f) ↦
          let acked = ack_device_messages env d.id ids s in
          rw (e, handle_device_ack_messages)
            (rw f (elim (Option-cases acked.3) [
              | inl g ↦ rw g (single-Step (Step.ack env d.id ids refl))
              | inr (x, g) ↦ rw g (single-Step (Step.ack env d.id ids refl))
            ]))
    ]
  ]
