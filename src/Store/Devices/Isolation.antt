-- ===== src/Store/Devices/Isolation.antt =====
-- Owners and device secrets guard the devices (internal/store/devices.go).
use tinypanel_hub.Prelude.{
  String, List, Option, some, true, false, ◌==◌, eq_string, eq_int, find?, ◌≡◌, refl, sym, ap,
  arith, All, In, find?-test, Bool-cases, Option-cases, ==_of_ne, eq_iff, ◌≢◌, inl, inr,
  filter-update_first_ne, filter-remove_first_ne,
}
use tinypanel_hub.Domain.{Device, DeviceHello}
use tinypanel_hub.Store.State.{Result, FileStore, Env}
use tinypanel_hub.Store.Commit.{commit-contents}
use mathlib.Core.Option
use tinypanel_hub.Store.Devices.{
  has_id, has_code, is_owned, bound_device, hello_device, bind_device, device, devices,
  update_device, delete_device, BindResult, needs_code, unique_bind_code, seen_device,
}
use tinypanel_hub.Store.Devices.Hello.{unique_bind_code_total}
use tinypanel_hub.Store.Devices.Binding.{
  BindOutcome, no_device, not_bindable, bindable, bind_device-BindOutcome,
}

map_total :
    {A B : Type 0} (f : A → B) (o : Option A)
    → (a : A) × (o ≡ some a)
    → (b : B) × (Option.map f o ≡ some b)
map_total f o (a, e) = (f a, ap (Option.map f) e)

seen_total :
    (env : Env) (ds : List Device) (d : Device)
    → (c : String) × (unique_bind_code env.codes ds ≡ some c)
    → (d' : Device) × (seen_device env ds d ≡ some d')
unfolding seen_device
seen_total env ds d drawn = elim (Bool-cases (needs_code env.now d)) [
  | inl needs ↦ rw (needs, seen_device) (map_total _ (unique_bind_code env.codes ds) drawn)
  | inr fine ↦ rw (fine, seen_device) (_, refl)
]

-- A hello returns as soon as some code drawn is on no device.
pub hello_total :
    (env : Env) (device_id secret_hash code : String) (s : FileStore)
    → In code env.codes
    → All (λ (d : Device). d.bind_code ≢ code) s.contents.devices
    → (r : FileStore × Result DeviceHello) × (hello_device env device_id secret_hash s ≡ some r)
unfolding hello_device
hello_total env device_id secret_hash code s i unused =
    let ds = s.contents.devices in
    let drawn = unique_bind_code_total env.codes ds code i unused in
    elim (Option-cases (find? (has_id device_id) ds)) [
      | inl new ↦ rw (new, hello_device) (map_total _ (unique_bind_code env.codes ds) drawn)
      | inr (d, found) ↦ elim (Bool-cases (d.secret_hash == secret_hash)) [
        | inr other ↦ rw (found, hello_device) (rw other (_, refl))
        | inl same ↦
            rw (found, hello_device)
              (rw same (map_total _ (seen_device env ds d) (seen_total env ds d drawn)))
      ]
    ]

hidden :
    (owner_id other device_id : String) (d : Device)
    → owner_id ≢ other
    → is_owned owner_id device_id d ≡ true
    → (d.owner_id == other) ≡ false
hidden owner_id other device_id d ne h =
    ground (arith, eq_iff d.owner_id owner_id, eq_iff d.owner_id other)

module _ (env : Env) (owner_id other : String) (s : FileStore) (ne : owner_id ≢ other) where
  update_device-devices :
      (device_id name : String)
      → devices other (update_device env owner_id device_id name s).0 ≡ devices other s
  unfolding update_device device devices
  update_device-devices device_id name =
      elim (Option-cases (find? (is_owned owner_id device_id) s.contents.devices)) [
        | inl e ↦ rw (e, update_device, device)
        | inr (d, e) ↦
            let out =
              hidden owner_id other device_id d ne
                (find?-test (is_owned owner_id device_id) s.contents.devices d e) in
            rw (e, update_device, device)
              (rw (commit-contents env _ s) (
                filter-update_first_ne (is_owned owner_id device_id) (λ x. x.owner_id == other)
                  s.contents.devices d _ e out out))
      ]

  delete_device-devices :
      (device_id : String)
      → devices other (delete_device env owner_id device_id s).0 ≡ devices other s
  unfolding delete_device device devices
  delete_device-devices device_id =
      elim (Option-cases (find? (is_owned owner_id device_id) s.contents.devices)) [
        | inl e ↦ rw (e, delete_device, device)
        | inr (d, e) ↦
            rw (e, delete_device, device)
              (rw (commit-contents env _ s) (
                filter-remove_first_ne (is_owned owner_id device_id) (λ x. x.owner_id == other)
                  s.contents.devices d e
                  (hidden owner_id other device_id d ne
                    (find?-test (is_owned owner_id device_id) s.contents.devices d e))))
      ]

  bind_device-devices :
      (bind_code name : String)
      → other ≢ ""
      → devices other (bind_device env owner_id bind_code name s).0 ≡ devices other s
  unfolding devices bound_device
  bind_device-devices bind_code name some_owner =
      by_outcome _ (bind_device-BindOutcome env owner_id bind_code name s)
    where
      by_outcome :
          (r : FileStore × BindResult)
          → BindOutcome env owner_id bind_code name s r
          → devices other r.0 ≡ devices other s
      by_outcome r (no_device found e) = rw e
      by_outcome r (not_bindable d found why e) = rw e
      by_outcome r (bindable d found free valid e) = rw e (
          rw (commit-contents env _ s) (
            filter-update_first_ne (has_code bind_code) (λ x. x.owner_id == other)
              s.contents.devices d _ found (rw free (==_of_ne _ _ (λ q. some_owner (sym q))))
              (==_of_ne _ _ ne)))

-- Binding, renaming and deleting for one owner, on every branch, leaves the devices that any other
-- named owner reads as they were.
pub devices_isolated :
    (env : Env) (owner_id other bind_code device_id name : String) (s : FileStore)
    → owner_id ≢ other
    → other ≢ ""
    → (devices other (bind_device env owner_id bind_code name s).0 ≡ devices other s)
      × (devices other (update_device env owner_id device_id name s).0 ≡ devices other s)
      × (devices other (delete_device env owner_id device_id s).0 ≡ devices other s)
devices_isolated env owner_id other bind_code device_id name s ne some_owner = (
  bind_device-devices env owner_id other s ne bind_code name some_owner,
  update_device-devices env owner_id other s ne device_id name,
  delete_device-devices env owner_id other s ne device_id,
)
