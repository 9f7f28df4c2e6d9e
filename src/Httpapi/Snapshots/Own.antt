-- ===== src/Httpapi/Snapshots/Own.antt =====
-- Whose data the reading routes of internal/httpapi show.
use tinypanel_hub.Httpapi.Request.{
  Payload, error_detail, snapshot_body, filtered_body, weather_body, telemetries_body,
}
use tinypanel_hub.Store.Telemetry.{
  recent, max_telemetry, items_or_nil, collect_device, device_owner, device_telemetry,
  owner_device_ids, filter_telemetry_by_devices, snapshot,
}
use tinypanel_hub.Store.Messages.{owner_messages}
use tinypanel_hub.Store.Messages.Listing.{collect-All}
use tinypanel_hub.Store.Todos.{todos}
use tinypanel_hub.Prelude.{All-filter_test, All-reverse_aux, find?-In, any-In, In-map, In-filter}
use tinypanel_hub.Domain.{Snapshot, Telemetry}
use tinypanel_hub.Prelude.{
  String, List, [], map, reverse, Option, none, some, ℤ, Bool, ◌==◌, eq_string, eq_int, eq_nat,
  filter, find?, ◌≡◌, sym, ◌∙◌, All, Option-cases, text_cases, eq_iff, ◌≢◌, inl, inr, find?-test,
  In,
}
use tinypanel_hub.Domain.{Message, Todo, Device}
use tinypanel_hub.Store.State.{Result, ok, err, FileStore, Env}

-- The record is of a device that is stored as the owner's.
abbrev pub IsOwnRecord : FileStore → String → Telemetry → Type 0
IsOwnRecord s owner_id t =
    (d : Device) × In d s.contents.devices × (d.id ≡ t.device_id) × (d.owner_id ≡ owner_id)

abbrev pub IsOwnMessage : String → Message → Type 0
IsOwnMessage owner_id m = m.owner_id ≡ owner_id

abbrev pub IsOwnTodo : String → Todo → Type 0
IsOwnTodo owner_id t = t.owner_id ≡ owner_id

pub record IsOwnSnapshot (s : FileStore) (owner_id : String) (x : Snapshot) : Type 0 where
  pub messages : All (IsOwnMessage owner_id) x.messages
  pub todos : All (IsOwnTodo owner_id) x.todos
  pub telemetry : All (IsOwnRecord s owner_id) x.telemetry

abbrev pub IfPresent : {A : Type 0} → (A → Type 0) → Option (List A) → Type 0
IfPresent P none = Unit
IfPresent P (some xs) = All P xs

-- A body that shows nothing of another owner.
abbrev pub IsOwn : FileStore → String → Payload → Type 0
IsOwn s owner_id (error_detail detail_code text) = Unit
IsOwn s owner_id (weather_body w) = Unit
IsOwn s owner_id (telemetries_body ts) = All (IsOwnRecord s owner_id) ts
IsOwn s owner_id (snapshot_body x) = IsOwnSnapshot s owner_id x
IsOwn s owner_id (filtered_body x) =
    IfPresent (IsOwnMessage owner_id) x.messages
    × IfPresent (IsOwnTodo owner_id) x.todos
    × IfPresent (IsOwnRecord s owner_id) x.telemetry
IsOwn s owner_id _ = ⊥

pub filter_telemetry-IsOwn :
    (s : FileStore) (owner_id : String) (items : List Telemetry) (limit : ℤ)
    → All
        (IsOwnRecord s owner_id)
        (filter_telemetry_by_devices items (owner_device_ids owner_id s) limit)
unfolding filter_telemetry_by_devices owner_device_ids
filter_telemetry-IsOwn s owner_id items limit =
    collect-All (IsOwnRecord s owner_id) _ limit (reverse items) λ t h.
      let own = filter (λ (d : Device). d.owner_id == owner_id) s.contents.devices in
      let (id, i, same) = any-In (λ id. id == t.device_id) (map (λ (d : Device). d.id) own) h in
      let (d, j, named) = In-map (λ (d : Device). d.id) id own i in
      let (k, owned) = In-filter (λ (d : Device). d.owner_id == owner_id) d s.contents.devices j in
      (d, k, sym named ∙ (eq_iff id t.device_id).0 same, (eq_iff d.owner_id owner_id).0 owned)

pub snapshot-IsOwnSnapshot :
    (env : Env) (owner_id : String) (s log : FileStore)
    → IsOwnSnapshot s owner_id (snapshot env owner_id s log)
unfolding snapshot owner_messages todos
snapshot-IsOwnSnapshot env owner_id s log = record {
  messages =
      All-filter_test (IsOwnMessage owner_id) (λ m. m.owner_id == owner_id)
        (reverse s.contents.messages) (λ m h. (eq_iff m.owner_id owner_id).0 h);
  todos =
      All-filter_test (IsOwnTodo owner_id) (λ t. t.owner_id == owner_id) s.contents.todos
        (λ t h. (eq_iff t.owner_id owner_id).0 h);
  telemetry =
      All-reverse_aux (IsOwnRecord s owner_id) _ []
        (filter_telemetry-IsOwn s owner_id (items_or_nil (recent env max_telemetry log))
          max_telemetry)
        tt;
}

device_owner-In :
    (device_id owner_id : String) (s : FileStore)
    → owner_id ≢ ""
    → device_owner device_id s.contents.devices ≡ owner_id
    → (d : Device) × In d s.contents.devices × (d.id ≡ device_id) × (d.owner_id ≡ owner_id)
unfolding device_owner
device_owner-In device_id owner_id s named h =
    let p : Device → Bool = λ d. d.id == device_id in
    elim (Option-cases (find? p s.contents.devices)) [
      | inl e ↦ absurd (named (sym (rw (e, device_owner) at h)))
      | inr (d, e) ↦ (
        d,
        find?-In p s.contents.devices d e,
        (eq_iff d.id device_id).0 (find?-test p s.contents.devices d e),
        rw (e, device_owner) at h,
      )
    ]

pub device_telemetry-IsOwn :
    (env : Env) (owner_id device_id : String) (limit : ℤ) (s log : FileStore)
    → owner_id ≢ ""
    → All (IsOwnRecord s owner_id) (device_telemetry env owner_id device_id limit s log)
unfolding device_telemetry
device_telemetry-IsOwn env owner_id device_id limit s log named =
    elim (text_cases (device_owner device_id s.contents.devices) owner_id) [
      | inr other ↦ rw (other, device_telemetry) tt
      | inl same ↦
          rw
            ((eq_iff (device_owner device_id s.contents.devices) owner_id).1 same, device_telemetry)
            (by_log (recent env max_telemetry log)
              (device_owner-In device_id owner_id s named same))
    ]
  where
    by_log :
        (items : Result (List Telemetry))
        → ((d : Device) × In d s.contents.devices × (d.id ≡ device_id) × (d.owner_id ≡ owner_id))
        → All (IsOwnRecord s owner_id) (collect_device device_id limit items)
    by_log (err e) found = tt
    by_log (ok items) (d, i, same, owned) =
        collect-All (IsOwnRecord s owner_id) (λ t. t.device_id == device_id) limit (reverse items)
          λ t h. (d, i, same ∙ sym ((eq_iff t.device_id device_id).0 h), owned)
