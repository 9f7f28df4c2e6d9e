-- ===== src/Store/Open/Identifiers.antt =====
-- The telemetry identifier after `OpenFiles` (internal/store/store.go).
use tinypanel_hub.Prelude.{
  List, [], ◌∷◌, ℤ, pos, eq_string, eq_int, arith, All, ◌≤ℤ◌, ◌<ℤ◌, int64_max,
}
use tinypanel_hub.Domain.{Telemetry}
use tinypanel_hub.Store.File.{next_after}
use tinypanel_hub.Store.File.Identifiers.{next_after_lem}
use tinypanel_hub.Prelude.{String, Option, ◌||◌, ◌==◌, ◌≡◌, Bool-cases, inl, inr}
use tinypanel_hub.Store.State.{Error, Files, FileStore, Env, Result-cases, ok, ok_eq, ok_err}
use tinypanel_hub.Store.File.{load, read_file, new_state_data}
use tinypanel_hub.Store.TelemetryLog.{load_recent}
use tinypanel_hub.Store.Open.{open_files, next_telemetry_id, next_telemetry_id_from}

next_telemetry_id_from_lem :
    (next : ℤ) (ts : List Telemetry)
    → All (λ (t : Telemetry). t.id <ℤ int64_max) ts
    → (next ≤ℤ next_telemetry_id_from next ts)
      × All (λ (t : Telemetry). t.id <ℤ next_telemetry_id_from next ts) ts
unfolding next_telemetry_id_from
next_telemetry_id_from_lem next [] h = (omega arith, tt)
next_telemetry_id_from_lem next (t ∷ ts) (q, h) =
    let (up, above) = next_after_lem next t.id q in
    let (further, rest) = next_telemetry_id_from_lem (next_after next t.id) ts h in
    (omega arith, (omega arith, rest))

next_telemetry_id_lem :
    (items : List Telemetry)
    → All (λ (t : Telemetry). t.id <ℤ int64_max) items
    → (pos 1 ≤ℤ next_telemetry_id items)
      × All (λ (t : Telemetry). t.id <ℤ next_telemetry_id items) items
unfolding next_telemetry_id
next_telemetry_id_lem items h = next_telemetry_id_from_lem (pos 1) items h

-- A store that was opened on a log whose load gives these records, at most the newest 500, gives the
-- next record an identifier that is positive and above all of theirs, if none of them has the largest
-- int64.
pub open_files-next_telemetry_id :
    (env : Env) (fails : Option Error) (state_path telemetry_path : String) (files : Files)
    (s : FileStore) (items : List Telemetry)
    → open_files env fails state_path telemetry_path files ≡ ok s
    → load_recent env.codec env.scan_fails files telemetry_path (pos 500) ≡ ok items
    → All (λ (t : Telemetry). t.id <ℤ int64_max) items
    → (pos 1 ≤ℤ s.next_telemetry_id) × All (λ (t : Telemetry). t.id <ℤ s.next_telemetry_id) items
unfolding open_files
open_files-next_telemetry_id env fails state_path telemetry_path files s items h loaded below =
    elim (Bool-cases (state_path == "" || telemetry_path == "")) [
      | inl e ↦ absurd (ok_err (rw (e, open_files) at h))
      | inr e ↦
          let h1 = rw (e, open_files) at h in
          elim (Result-cases
            (load env.codec env.now (read_file fails files state_path) (new_state_data env.now))) [
              | inr (x, f) ↦ absurd (ok_err (rw f at h1))
              | inl (d, f) ↦
                  let h2 = rw f at h1 in
                  rw⁻¹ (ok_eq (rw loaded at h2)) (next_telemetry_id_lem items below)
            ]
    ]
