-- ===== src/Store/Devices/Preservation.antt =====
-- Each operation of internal/store/devices.go keeps the invariant of the devices.
use tinypanel_hub.Prelude.{
  String, List, some, true, eq_string, eq_int, find?, update_first, ◌≡◌, refl, All, All-In,
  All-of_In, find?-All, Option-cases, &&_eq_true, eq_iff, ◌≢◌, inl, inr,
}
use tinypanel_hub.Domain.{Device, DeviceHello, Time, after}
use tinypanel_hub.Store.State.{Result, FileStore, Env}
use tinypanel_hub.Store.Commit.{commit-contents}
use tinypanel_hub.Store.Devices.{
  has_id, has_code, is_owned, fresh_device, bound_device, save_hello, hello_device, bind_device,
  BindResult, device, update_device, delete_device, needs_code, with_code, set_devices,
}
use tinypanel_hub.Store.Devices.Hello.{
  Seen, kept, renewed, HelloOutcome, rejected, known, registered, hello_device-HelloOutcome,
  unique_bind_code_lem,
}
use tinypanel_hub.Store.Devices.Binding.{
  BindOutcome, no_device, not_bindable, bindable, bind_device-BindOutcome,
}
use tinypanel_hub.Store.Devices.Registry.{
  HasPhase, IsRegistry, DistinctCodes, append-IsRegistry, keep_code-IsRegistry,
  fresh_code-IsRegistry, remove-IsRegistry, fresh_code-DistinctCodes,
}

abbrev pub IsNonempty : String → Type 0
IsNonempty c = c ≢ ""

pub save_hello-devices :
    (env : Env) (d : Device) (ds : List Device) (s : FileStore)
    → (save_hello env d ds s).0.contents ≡ set_devices ds s
unfolding save_hello
save_hello-devices env d ds s = commit-contents env (set_devices ds s) s

waiting :
    (env : Env) (d : Device) (code : String)
    → needs_code env.now d ≡ true
    → HasPhase d
    → code ≢ ""
    → HasPhase (with_code env.now code (record d { last_seen_at = some (env.now) }))
waiting env d code needs (inl (owner, _, bound, _)) new = inl (owner, new, bound, (_, refl))
waiting env d code needs (inr (owner, _, _, _)) new =
    absurd (owner ((eq_iff d.owner_id "").0 ((&&_eq_true _ _ needs).0)))

Seen-IsRegistry :
    (env : Env) (ds : List Device) (device_id : String) (d d' : Device)
    → All IsNonempty env.codes
    → find? (has_id device_id) ds ≡ some d
    → Seen env ds d d'
    → IsRegistry ds
    → IsRegistry (update_first (has_id device_id) (λ _. d') ds)
Seen-IsRegistry env ds device_id d d' codes found (kept _ e) h =
    let phase = find?-All (has_id device_id) HasPhase ds d h.phases found in
    keep_code-IsRegistry (has_id device_id) ds d d' found (rw e) (rw e phase) h (rw e)
Seen-IsRegistry env ds device_id d d' codes found (renewed code needs drawn e) h =
    let phase = find?-All (has_id device_id) HasPhase ds d h.phases found in
    let (i, unused) = unique_bind_code_lem env.codes ds code drawn in
    let nonempty = All-In IsNonempty code env.codes codes i in
    let (after, before) = fresh_code-DistinctCodes ds d' (rw e unused) in
    fresh_code-IsRegistry (has_id device_id) ds d d' found (rw e)
      (rw e (waiting env d code needs phase nonempty)) h after before

-- A hello keeps the registry well-formed, if the codes drawn are not empty.
pub hello_device-IsRegistry :
    (env : Env) (device_id secret_hash : String) (s : FileStore)
    (r : FileStore × Result DeviceHello)
    → All IsNonempty env.codes
    → hello_device env device_id secret_hash s ≡ some r
    → IsRegistry s.contents.devices
    → IsRegistry r.0.contents.devices
unfolding fresh_device
hello_device-IsRegistry env device_id secret_hash s r codes e h =
    by_outcome (hello_device-HelloOutcome env device_id secret_hash s r e)
  where
    by_outcome : HelloOutcome env device_id secret_hash s r → IsRegistry r.0.contents.devices
    by_outcome (rejected d found other e) = rw e h
    by_outcome (known d d' found same seen e) = rw e (
        rw (save_hello-devices env d' _ s)
          (Seen-IsRegistry env s.contents.devices device_id d d' codes found seen h))
    by_outcome (registered code found drawn e) =
        let (i, unused) = unique_bind_code_lem env.codes s.contents.devices code drawn in
        let nonempty = All-In IsNonempty code env.codes codes i in
        rw e (
          rw (save_hello-devices env _ _ s) (
            append-IsRegistry s.contents.devices _ found unused
              (inl (refl, nonempty, refl, (_, refl))) h))

-- The device of a new owner.
bound_device-HasPhase :
    (now : Time) (owner_id name : String) (d : Device)
    → owner_id ≢ ""
    → HasPhase (bound_device now owner_id name d)
unfolding bound_device
bound_device-HasPhase now owner_id name d owner = inr (owner, refl, refl, (now, refl))

bound_device-code :
    (now : Time) (owner_id name : String) (d : Device) (ds : List Device)
    → All (DistinctCodes (bound_device now owner_id name d)) ds
      × All (λ a. DistinctCodes a (bound_device now owner_id name d)) ds
unfolding bound_device
bound_device-code now owner_id name d ds =
    (All-of_In _ ds (λ a _ e. refl), All-of_In _ ds (λ a _ e. e))

-- Binding for a named user keeps the registry well-formed.
pub bind_device-IsRegistry :
    (env : Env) (owner_id bind_code name : String) (s : FileStore)
    → owner_id ≢ ""
    → IsRegistry s.contents.devices
    → IsRegistry (bind_device env owner_id bind_code name s).0.contents.devices
unfolding bound_device
bind_device-IsRegistry env owner_id bind_code name s owner h =
    by_outcome _ (bind_device-BindOutcome env owner_id bind_code name s)
  where
    by_outcome :
        (r : FileStore × BindResult)
        → BindOutcome env owner_id bind_code name s r
        → IsRegistry r.0.contents.devices
    by_outcome r (no_device found e) = rw e h
    by_outcome r (not_bindable d found why e) = rw e h
    by_outcome r (bindable d found free valid e) =
        let (after, before) = bound_device-code env.now owner_id name d s.contents.devices in
        rw e (
          rw (commit-contents env _ s) (
            fresh_code-IsRegistry (has_code bind_code) s.contents.devices d _ found refl
              (bound_device-HasPhase env.now owner_id name d owner) h after before))

-- Renaming and deleting keep it too.
pub update_device-IsRegistry :
    (env : Env) (owner_id device_id name : String) (s : FileStore)
    → IsRegistry s.contents.devices
    → IsRegistry (update_device env owner_id device_id name s).0.contents.devices
unfolding update_device device
update_device-IsRegistry env owner_id device_id name s h =
    elim (Option-cases (find? (is_owned owner_id device_id) s.contents.devices)) [
      | inl e ↦ rw (e, update_device, device) h
      | inr (d, e) ↦
          rw (e, update_device, device)
            (rw (commit-contents env _ s) (
              keep_code-IsRegistry (is_owned owner_id device_id) s.contents.devices d _ e refl
                (find?-All (is_owned owner_id device_id) HasPhase s.contents.devices d h.phases e) h
                refl))
    ]

pub delete_device-IsRegistry :
    (env : Env) (owner_id device_id : String) (s : FileStore)
    → IsRegistry s.contents.devices
    → IsRegistry (delete_device env owner_id device_id s).0.contents.devices
unfolding delete_device device
delete_device-IsRegistry env owner_id device_id s h =
    elim (Option-cases (find? (is_owned owner_id device_id) s.contents.devices)) [
      | inl e ↦ rw (e, delete_device, device) h
      | inr (d, e) ↦
          rw (e, delete_device, device)
            (rw (commit-contents env _ s)
              (remove-IsRegistry (is_owned owner_id device_id) s.contents.devices h))
    ]
