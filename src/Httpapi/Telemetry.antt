-- ===== src/Httpapi/Telemetry.antt =====
-- internal/httpapi/telemetry.go: what a device reports.
pub mod Reports
use tinypanel_hub.Service.Telemetry as TelemetryService
use tinypanel_hub.Httpapi.Request.{
  Decoder, Request, Response, write_json, write_error, write_store_error, Checked, valid, reply,
  json_body, telemetry_body, batch_body,
}
use tinypanel_hub.Httpapi.Auth.{Server, require_device_auth}
use tinypanel_hub.Service.Telemetry.{create_batch}
use tinypanel_hub.Service.Files.{file_telemetries}
use tinypanel_hub.Prelude.{
  ℕ, String, List, [], ◌∷◌, pos, not, if◌then◌else◌, ◌==◌, ◌!=◌, eq_string, eq_int, eq_nat, ltb,
  ltb_ℤ, length, trim_space,
}
use tinypanel_hub.Domain.{Device}
use tinypanel_hub.Store.State.{Result, ok, err, FileStore, Env}
use tinypanel_hub.Domain.{Telemetry, is_zero_time}

-- `item` after the assignments of `normalizeTelemetry`.
unfoldable pub trimmed_telemetry : String → Telemetry → Telemetry
trimmed_telemetry device_id t = record t {
  device_id = device_id;
  boot_id = trim_space t.boot_id;
  power = record (t.power) {
    battery = record (t.power.battery) { status = trim_space t.power.battery.status };
  };
  network = record (t.network) { ssid = trim_space t.network.ssid; ip = trim_space t.network.ip };
}

unfoldable pub normalize_telemetry : String → Telemetry → Checked Telemetry
unfolding trimmed_telemetry write_error
normalize_telemetry device_id item =
    let t = trimmed_telemetry device_id item in
    if t.device_id == ""
    then reply (write_error 400 "device_id is required")
    else if t.schema_version != pos 1
    then reply (write_error 400 "schema_version must be 1")
    else if t.boot_id == ""
    then reply (write_error 400 "boot_id is required")
    else if ltb_ℤ t.sequence (pos 0)
    then reply (write_error 400 "sequence must be greater than or equal to 0")
    else if is_zero_time t.report_timestamp
    then reply (write_error 400 "report_timestamp is required")
    else valid t

-- The loop over the items of `handleDeviceTelemetryBatch`.
unfoldable pub normalize_batch : String → List Telemetry → Checked (List Telemetry)
unfolding normalize_telemetry
normalize_batch device_id [] = valid []
normalize_batch device_id (t ∷ ts) = elim (normalize_telemetry device_id t) [
  | reply x ↦ reply x
  | valid t' ↦ elim (normalize_batch device_id ts) [
    | reply x ↦ reply x
    | valid ts' ↦ valid (t' ∷ ts')
  ]
]

-- The body of a request to the batch route
pub record TelemetryBatch : Type 0 where
  pub items : List Telemetry

pub record TelemetryJson : Type 0 where
  pub telemetry_json : Decoder Telemetry
  pub batch_json : Decoder TelemetryBatch

-- The response to the result of `Create`
unfoldable pub create_reply : Result Telemetry → Response
unfolding write_error
create_reply (err e) = write_store_error
create_reply (ok t) = write_json 201 (telemetry_body t)

-- `handleDeviceTelemetry`
unfoldable pub handle_device_telemetry :
    TelemetryJson → Env → Request → Device → FileStore → FileStore × Response
unfolding json_body normalize_telemetry create_reply
handle_device_telemetry json env r device s = elim (json_body json.telemetry_json r) [
  | reply x ↦ (s, x)
  | valid req ↦ elim (normalize_telemetry device.id req) [
    | reply x ↦ (s, x)
    | valid t ↦
        let (s', stored) = TelemetryService.create file_telemetries env t s in
        (s', create_reply stored)
  ]
]

-- The response to the result of `CreateBatch`
unfoldable pub batch_reply : Result (List Telemetry) → Response
unfolding write_error
batch_reply (err e) = write_store_error
batch_reply (ok ts) = write_json 201 (batch_body (length ts) ts)

-- The checks of `handleDeviceTelemetryBatch` on the items, which it normalises.
unfoldable pub checked_batch : String → List Telemetry → Checked (List Telemetry)
unfolding normalize_batch write_error
checked_batch device_id items =
    if length items == 0
    then reply (write_error 400 "items is required")
    else if ltb 100 (length items)
    then reply (write_error 400 "items must not exceed 100")
    else normalize_batch device_id items

-- `handleDeviceTelemetryBatch`
unfoldable pub handle_device_telemetry_batch :
    TelemetryJson → (ℕ → Env) → Request → Device → FileStore → FileStore × Response
unfolding json_body checked_batch TelemetryService.create_batch batch_reply
handle_device_telemetry_batch json envs r device s = elim (json_body json.batch_json r) [
  | reply x ↦ (s, x)
  | valid req ↦ elim (checked_batch device.id req.items) [
    | reply x ↦ (s, x)
    | valid ts ↦
        let (s', stored) = TelemetryService.create_batch file_telemetries envs 0 ts s in
        (s', batch_reply stored)
  ]
]

-- The two routes for telemetry, behind `requireDeviceAuth`
pub data TelemetryRoute : Type 0 where
  single : TelemetryRoute
  batch : TelemetryRoute

unfoldable pub route_telemetry :
    TelemetryJson → (ℕ → Env) → TelemetryRoute → Request → Device → FileStore → FileStore × Response
unfolding handle_device_telemetry handle_device_telemetry_batch
route_telemetry json envs single r device s = handle_device_telemetry json (envs 0) r device s
route_telemetry json envs batch r device s = handle_device_telemetry_batch json envs r device s

unfoldable pub serve_telemetry :
    Server → TelemetryJson → (ℕ → Env) → TelemetryRoute → Request → FileStore → FileStore × Response
unfolding route_telemetry
serve_telemetry server json envs route r s = elim (require_device_auth server r s) [
  | reply x ↦ (s, x)
  | valid device ↦ route_telemetry json envs route r device s
]
