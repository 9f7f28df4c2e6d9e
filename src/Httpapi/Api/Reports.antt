-- ===== src/Httpapi/Api/Reports.antt =====
-- What the telemetry routes of internal/httpapi do to the store, as operations of internal/store.
use tinypanel_hub.Httpapi.Api.Steps.{Steps, no_step, single-Step}
use tinypanel_hub.Domain.{Telemetry}
use tinypanel_hub.Httpapi.Telemetry.Reports.{checked_batch-length}
use tinypanel_hub.Httpapi.Request.{Request, Checked-cases, json_body}
use tinypanel_hub.Service.Telemetry.{create_batch}
use tinypanel_hub.Service.Files.{file_telemetries}
use tinypanel_hub.Httpapi.Telemetry.{
  TelemetryJson, TelemetryRoute, single, batch, normalize_telemetry, checked_batch,
  handle_device_telemetry, handle_device_telemetry_batch, route_telemetry,
}
use tinypanel_hub.Store.Telemetry.{add_telemetry}
use tinypanel_hub.Store.Reachable.{Step, Reach, here, next}
use tinypanel_hub.Prelude.{
  ℕ, suc, ◌+◌, ◌≤◌, List, [], ◌∷◌, eq_string, eq_int, eq_nat, length, refl, arith, inl, inr,
}
use tinypanel_hub.Domain.{Device}
use tinypanel_hub.Store.State.{FileStore, Env, Result-cases}

-- The items of a batch are added one by one.
create_batch-Reach :
    (envs : ℕ → Env) (n k : ℕ) (ts : List Telemetry) (s0 s : FileStore)
    → Reach s0 k s
    → (m : ℕ) × (m ≤ k + length ts) × Reach s0 m (create_batch file_telemetries envs n ts s).0
unfolding create_batch
create_batch-Reach envs n k [] s0 s before = (k, omega arith, before)
create_batch-Reach envs n k (t ∷ ts) s0 s before =
    let after_one = next before (Step.report (envs n) t refl) in
    elim (Result-cases (add_telemetry (envs n) t s).1) [
      | inr (x, e) ↦ rw (e, create_batch) (suc k, omega arith, after_one)
      | inl (t', e) ↦
          let (m, bound, steps) =
            create_batch-Reach envs (suc n) (suc k) ts s0 (add_telemetry (envs n) t s).0
              after_one in
          rw (e, create_batch) (m, omega (arith, bound), steps)
    ]

module _ (json : TelemetryJson) (envs : ℕ → Env) (r : Request) (d : Device) (s : FileStore) where
  pub telemetry-Steps : (route : TelemetryRoute) → Steps s (route_telemetry json envs route r d s).0
  unfolding route_telemetry handle_device_telemetry handle_device_telemetry_batch
  telemetry-Steps single = elim (Checked-cases (json_body json.telemetry_json r)) [
    | inr (x, e) ↦ rw (e, handle_device_telemetry) no_step
    | inl (req, e) ↦ elim (Checked-cases (normalize_telemetry d.id req)) [
      | inr (x, f) ↦ rw (e, handle_device_telemetry) (rw f no_step)
      | inl (t, f) ↦
          rw (e, handle_device_telemetry) (rw f (single-Step (Step.report (envs 0) t refl)))
    ]
  ]
  telemetry-Steps batch = elim (Checked-cases (json_body json.batch_json r)) [
    | inr (x, e) ↦ rw (e, handle_device_telemetry_batch) no_step
    | inl (req, e) ↦ elim (Checked-cases (checked_batch d.id req.items)) [
      | inr (x, f) ↦ rw (e, handle_device_telemetry_batch) (rw f no_step)
      | inl (ts, f) ↦
          let few = checked_batch-length d.id req.items ts f in
          let (m, bound, steps) = create_batch-Reach envs 0 0 ts s s here in
          rw (e, handle_device_telemetry_batch) (rw f (m, omega (arith, bound, few), steps))
    ]
  ]
