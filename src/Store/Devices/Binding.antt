-- ===== src/Store/Devices/Binding.antt =====
-- The outcomes of `BindDevice` (internal/store/devices.go), case by case.
use tinypanel_hub.Prelude.{
  String, none, some, true, false, eq_string, eq_int, find?, update_first, ◌≡◌, Bool-cases,
  Option-cases, text_cases, ne_of_==, ◌≢◌, ◌⊎◌, inl, inr,
}
use tinypanel_hub.Domain.{Device}
use tinypanel_hub.Store.State.{FileStore, Env}
use tinypanel_hub.Store.Commit.{commit}
use tinypanel_hub.Store.Devices.{
  has_code, bound_device, bind_device, BindResult, bind_answer, has_expired, set_devices,
  unknown_code, refused,
}

-- What `BindDevice` does where it returns `r`.
pub data BindOutcome (env : Env) (owner_id bind_code name : String) (s : FileStore)
    (r : FileStore × BindResult) : Type 0 where
  no_device :
      find? (has_code bind_code) s.contents.devices ≡ none
      → r ≡ (s, unknown_code)
      → BindOutcome env owner_id bind_code name s r
  not_bindable :
      (d : Device)
      → find? (has_code bind_code) s.contents.devices ≡ some d
      → (d.owner_id ≢ "") ⊎ (has_expired env.now d.bind_code_expires_at ≡ true)
      → r ≡ (s, refused)
      → BindOutcome env owner_id bind_code name s r
  bindable :
      (d : Device)
      → find? (has_code bind_code) s.contents.devices ≡ some d
      → d.owner_id ≡ ""
      → has_expired env.now d.bind_code_expires_at ≡ false
      → (let d' = bound_device env.now owner_id name d in
          let ds' = update_first (has_code bind_code) (λ _. d') s.contents.devices in
          let c = commit env (set_devices ds' s) s in r ≡ (c.0, bind_answer d' c.1))
      → BindOutcome env owner_id bind_code name s r

pub bind_device_bindable :
    (env : Env) (owner_id bind_code name : String) (s : FileStore) {d : Device}
    → find? (has_code bind_code) s.contents.devices ≡ some d
    → d.owner_id ≡ ""
    → has_expired env.now d.bind_code_expires_at ≡ false
    → let d' = bound_device env.now owner_id name d in
      let ds' = update_first (has_code bind_code) (λ _. d') s.contents.devices in
      let c = commit env (set_devices ds' s) s in
      bind_device env owner_id bind_code name s ≡ (c.0, bind_answer d' c.1)
unfolding bind_device
bind_device_bindable env owner_id bind_code name s found free valid =
    rw (found, bind_device) (rw (free, valid))

pub bind_device-BindOutcome :
    (env : Env) (owner_id bind_code name : String) (s : FileStore)
    → BindOutcome env owner_id bind_code name s (bind_device env owner_id bind_code name s)
unfolding bind_device
bind_device-BindOutcome env owner_id bind_code name s =
    elim (Option-cases (find? (has_code bind_code) s.contents.devices)) [
      | inl e ↦ no_device e (rw (e, bind_device))
      | inr (d, e) ↦ elim (text_cases d.owner_id "") [
        | inr owned ↦ not_bindable d e (inl (ne_of_== _ _ owned)) (rw (e, bind_device) (rw owned))
        | inl free ↦ elim (Bool-cases (has_expired env.now d.bind_code_expires_at)) [
          | inl late ↦ not_bindable d e (inr late) (rw (e, bind_device) (rw (free, late)))
          | inr valid ↦
              bindable d e free valid
                (bind_device_bindable env owner_id bind_code name s e free valid)
        ]
      ]
    ]
