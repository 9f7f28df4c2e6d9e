-- ===== src/Store/Telemetry.antt =====
-- internal/store/telemetry.go, and `Snapshot` and `Weather` of internal/store/messages.go.
use tinypanel_hub.Prelude.{
  String, List, [], map, reverse, none, some, ℤ, pos, if◌then◌else◌, ◌==◌, ◌!=◌, eq_string, eq_int,
  succ_int64, filter, find?, any,
}
use tinypanel_hub.Domain.{Weather, Device, Telemetry, Snapshot, Time, is_zero_time}
use tinypanel_hub.Store.State.{Result, ok, err, FileStore, Env}
use tinypanel_hub.Store.TelemetryLog.{load_recent, append_telemetry}
use tinypanel_hub.Store.Messages.{collect, owner_messages}
use tinypanel_hub.Store.Todos.{todos}

abbrev pub max_telemetry : ℤ
max_telemetry = pos 500

-- `s.telemetry.loadRecent`
abbrev pub recent : Env → ℤ → FileStore → Result (List Telemetry)
recent env limit s = load_recent env.codec env.scan_fails s.files s.telemetry_path limit

abbrev reversed_or_nil : Result (List Telemetry) → List Telemetry
reversed_or_nil (ok items) = reverse items
reversed_or_nil (err e) = []

-- `Telemetry`
unfoldable pub telemetry : Env → ℤ → FileStore → List Telemetry
telemetry env limit s = reversed_or_nil (recent env limit s)

-- The first loop of `DeviceTelemetry`: the owner of the device, or "".
unfoldable pub device_owner : String → List Device → String
device_owner device_id ds = elim (find? (λ d. d.id == device_id) ds) [
  | none ↦ ""
  | some d ↦ d.owner_id
]

abbrev pub collect_device : String → ℤ → Result (List Telemetry) → List Telemetry
collect_device device_id limit (err e) = []
collect_device device_id limit (ok items) =
    collect (λ t. t.device_id == device_id) limit [] (reverse items)

-- It lets its lock go before it reads the log: `log` is the store at that time.
unfoldable pub device_telemetry : Env → String → String → ℤ → FileStore → FileStore → List Telemetry
unfolding device_owner
device_telemetry env owner_id device_id limit s log =
    if device_owner device_id s.contents.devices != owner_id
    then []
    else collect_device device_id limit (recent env max_telemetry log)

-- The fields that `AddTelemetry` sets.
unfoldable pub stamp_telemetry : Time → ℤ → Telemetry → Telemetry
stamp_telemetry now id t = record t {
  id = id;
  received_at = now;
  report_timestamp = if is_zero_time t.report_timestamp then now else t.report_timestamp;
  app = elim t.app [ none ↦ some [] | some m ↦ some m ];
}

unfoldable pub add_telemetry : Env → Telemetry → FileStore → FileStore × Result Telemetry
add_telemetry env t s =
    let t' = stamp_telemetry env.now s.next_telemetry_id t in
    let (files, e) = append_telemetry env.codec env.append_faults t' s.telemetry_path s.files in
    elim e [
      | some e' ↦ (record s { files = files }, err e')
      | none ↦
          (record s { files = files; next_telemetry_id = succ_int64 s.next_telemetry_id }, ok t')
    ]

-- `ownerDeviceIDsLocked`: the keys of the map.
unfoldable pub owner_device_ids : String → FileStore → List String
owner_device_ids owner_id s =
    map (λ (d : Device). d.id) (filter (λ d. d.owner_id == owner_id) s.contents.devices)

unfoldable pub filter_telemetry_by_devices : List Telemetry → List String → ℤ → List Telemetry
filter_telemetry_by_devices items device_ids limit =
    collect (λ t. any (λ id. id == t.device_id) device_ids) limit [] (reverse items)

abbrev pub items_or_nil : Result (List Telemetry) → List Telemetry
items_or_nil (ok items) = items
items_or_nil (err e) = []

-- `log` is the store when the log is read, after the lock was let go.
unfoldable pub snapshot : Env → String → FileStore → FileStore → Snapshot
unfolding owner_device_ids filter_telemetry_by_devices owner_messages todos
snapshot env owner_id s log =
    let items = items_or_nil (recent env max_telemetry log) in
    let filtered = filter_telemetry_by_devices items (owner_device_ids owner_id s) max_telemetry in
    record {
      weather = s.contents.weather;
      messages = owner_messages owner_id s;
      todos = todos owner_id s;
      telemetry = reverse filtered;
    }

unfoldable pub weather : FileStore → Weather
weather s = s.contents.weather
