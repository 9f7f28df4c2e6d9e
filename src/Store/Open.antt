-- ===== src/Store/Open.antt =====
-- `OpenFiles` and `nextTelemetryID` of internal/store/store.go.
pub mod Restart
pub mod Identifiers
use tinypanel_hub.Prelude.{
  String, List, [], ◌∷◌, Option, ℤ, pos, ◌||◌, if◌then◌else◌, ◌==◌, eq_string, eq_int,
}
use tinypanel_hub.Domain.{Telemetry}
use tinypanel_hub.Store.State.{
  Error, empty_store_path, Result, ok, err, StateData, Files, FileStore, Env,
}
use tinypanel_hub.Store.File.{new_state_data, load, read_file, next_after}
use tinypanel_hub.Store.TelemetryLog.{load_recent}
use tinypanel_hub.Store.Telemetry.{max_telemetry}

-- The loop of `nextTelemetryID` with its variable `next`.
unfoldable pub next_telemetry_id_from : ℤ → List Telemetry → ℤ
next_telemetry_id_from next [] = next
next_telemetry_id_from next (item ∷ items) = next_telemetry_id_from (next_after next item.id) items

unfoldable pub next_telemetry_id : List Telemetry → ℤ
unfolding next_telemetry_id_from
next_telemetry_id items = next_telemetry_id_from (pos 1) items

abbrev opened : String → String → Files → StateData → Result (List Telemetry) → Result FileStore
opened state_path telemetry_path files d (err e) = err e
opened state_path telemetry_path files d (ok items) = ok (record {
  contents = d;
  state_path = state_path;
  telemetry_path = telemetry_path;
  next_telemetry_id = next_telemetry_id items;
  files = files;
})

-- `read_fails` is an error of reading the state file other than that it is missing.
unfoldable pub open_files : Env → Option Error → String → String → Files → Result FileStore
unfolding next_telemetry_id
open_files env read_fails state_path telemetry_path files =
    if state_path == "" || telemetry_path == ""
    then err empty_store_path
    else elim (load env.codec env.now (read_file read_fails files state_path)
        (new_state_data env.now)) [
          | err e ↦ err e
          | ok d ↦
              opened state_path telemetry_path files d
                (load_recent env.codec env.scan_fails files telemetry_path max_telemetry)
        ]
