-- ===== src/Httpapi/Telemetry/Reports.antt =====
-- What the telemetry routes of internal/httpapi add to the log.
use tinypanel_hub.Httpapi.Request.{Request, valid, json_body, Checked-cases, valid_eq, reply_valid}
use tinypanel_hub.Httpapi.Auth.{Server, require_device_auth}
use tinypanel_hub.Httpapi.Auth.Admission.{require_device_auth_lem}
use tinypanel_hub.Service.Telemetry.{create_batch}
use tinypanel_hub.Service.Files.{file_telemetries}
use tinypanel_hub.Httpapi.Telemetry.{
  trimmed_telemetry, normalize_telemetry, normalize_batch, checked_batch, TelemetryJson,
  handle_device_telemetry, handle_device_telemetry_batch, TelemetryRoute, single, batch,
  route_telemetry, serve_telemetry,
}
use tinypanel_hub.Store.Telemetry.{add_telemetry}
use tinypanel_hub.Domain.{Telemetry, is_zero_time}
use tinypanel_hub.Prelude.{eq_ℤ, eq_ℤ_iff}
use tinypanel_hub.Prelude.{
  ℕ, suc, ◌+◌, ◌≤◌, ap, String, List, [], ◌∷◌, pos, false, ◌==◌, eq_string, eq_int, eq_nat, ltb,
  ltb_ℤ, length, trim_space, ◌≡◌, refl, arith, All, Bool-cases, ne_of_==, ◌≢◌, inl, inr, ◌≤ℤ◌,
}
use tinypanel_hub.Domain.{Device}
use tinypanel_hub.Store.State.{FileStore, Env, Result-cases}

-- A record that the handlers let through.
pub record IsReport (device_id : String) (t : Telemetry) : Type 0 where
  pub device : t.device_id ≡ device_id
  pub named : device_id ≢ ""
  pub version : t.schema_version ≡ pos 1
  pub boot : t.boot_id ≢ ""
  pub counted : pos 0 ≤ℤ t.sequence
  pub dated : is_zero_time t.report_timestamp ≡ false

normalize_telemetry-IsReport :
    (device_id : String) (item t : Telemetry)
    → normalize_telemetry device_id item ≡ valid t
    → IsReport device_id t
unfolding normalize_telemetry trimmed_telemetry
normalize_telemetry-IsReport device_id item t h = elim (Bool-cases (device_id == "")) [
  | inl a ↦ absurd (reply_valid (rw (a, normalize_telemetry) at h))
  | inr a ↦
      let h1 = rw (a, normalize_telemetry) at h in
      elim (Bool-cases (eq_ℤ item.schema_version (pos 1))) [
        | inr b ↦ absurd (reply_valid (rw b at h1))
        | inl b ↦
            let h2 = rw b at h1 in
            elim (Bool-cases (trim_space item.boot_id == "")) [
              | inl c ↦ absurd (reply_valid (rw c at h2))
              | inr c ↦
                  let h3 = rw c at h2 in
                  elim (Bool-cases (ltb_ℤ item.sequence (pos 0))) [
                    | inl d ↦ absurd (reply_valid (rw d at h3))
                    | inr d ↦
                        let h4 = rw d at h3 in
                        elim (Bool-cases (is_zero_time item.report_timestamp)) [
                          | inl e ↦ absurd (reply_valid (rw e at h4))
                          | inr e ↦ rw⁻¹ (valid_eq (rw e at h4)) (record {
                            device = refl;
                            named = ne_of_== device_id "" a;
                            version = (eq_ℤ_iff item.schema_version (pos 1)).0 b;
                            boot = ne_of_== (trim_space item.boot_id) "" c;
                            counted = ground arith;
                            dated = e;
                          })
                        ]
                  ]
            ]
      ]
]

-- A batch that passes the checks has only records of the device with all that a report needs.
normalize_batch-IsReport :
    (device_id : String) (items ts : List Telemetry)
    → normalize_batch device_id items ≡ valid ts
    → All (IsReport device_id) ts
unfolding normalize_batch
normalize_batch-IsReport device_id [] ts h = rw⁻¹ (valid_eq h) tt
normalize_batch-IsReport device_id (x ∷ xs) ts h =
    elim (Checked-cases (normalize_telemetry device_id x)) [
      | inr (r, e) ↦ absurd (reply_valid (rw (e, normalize_batch) at h))
      | inl (t, e) ↦
          let h1 = rw (e, normalize_batch) at h in
          elim (Checked-cases (normalize_batch device_id xs)) [
            | inr (r, f) ↦ absurd (reply_valid (rw f at h1))
            | inl (rest, f) ↦ rw⁻¹ (valid_eq (rw f at h1)) (
              normalize_telemetry-IsReport device_id x t e,
              normalize_batch-IsReport device_id xs rest f,
            )
          ]
    ]

-- The store after a number of reports of a device were added, each in the environment of its turn.
pub data Reported (device_id : String) (envs : ℕ → Env) (s : FileStore)
    : ℕ → FileStore → Type 0 where
  no_more : Reported device_id envs s 0 s
  one_more :
      {n : ℕ} {t u : FileStore} (item : Telemetry)
      → Reported device_id envs s n t
      → IsReport device_id item
      → u ≡ (add_telemetry (envs n) item t).0
      → Reported device_id envs s (suc n) u

normalize_batch-length :
    (device_id : String) (items ts : List Telemetry)
    → normalize_batch device_id items ≡ valid ts
    → length ts ≡ length items
unfolding normalize_batch
normalize_batch-length device_id [] ts h = rw⁻¹ (valid_eq h) refl
normalize_batch-length device_id (x ∷ xs) ts h =
    elim (Checked-cases (normalize_telemetry device_id x)) [
      | inr (r, e) ↦ absurd (reply_valid (rw (e, normalize_batch) at h))
      | inl (t, e) ↦
          let h1 = rw (e, normalize_batch) at h in
          elim (Checked-cases (normalize_batch device_id xs)) [
            | inr (r, f) ↦ absurd (reply_valid (rw f at h1))
            | inl (rest, f) ↦
                rw⁻¹ (valid_eq (rw f at h1)) (ap suc (normalize_batch-length device_id xs rest f))
          ]
    ]

pub checked_batch-length :
    (device_id : String) (items ts : List Telemetry)
    → checked_batch device_id items ≡ valid ts
    → length ts ≤ 100
unfolding checked_batch
checked_batch-length device_id items ts h = elim (Bool-cases (length items == 0)) [
  | inl e ↦ absurd (reply_valid (rw (e, checked_batch) at h))
  | inr e ↦ elim (Bool-cases (ltb 100 (length items))) [
    | inl f ↦ absurd (reply_valid (rw f at rw (e, checked_batch) at h))
    | inr f ↦
        let same = normalize_batch-length device_id items ts (rw f at rw (e, checked_batch) at h) in
        ground arith
  ]
]

checked_batch-IsReport :
    (device_id : String) (items ts : List Telemetry)
    → checked_batch device_id items ≡ valid ts
    → All (IsReport device_id) ts
unfolding checked_batch
checked_batch-IsReport device_id items ts h = elim (Bool-cases (length items == 0)) [
  | inl e ↦ absurd (reply_valid (rw (e, checked_batch) at h))
  | inr e ↦ elim (Bool-cases (ltb 100 (length items))) [
    | inl f ↦ absurd (reply_valid (rw f at rw (e, checked_batch) at h))
    | inr f ↦ normalize_batch-IsReport device_id items ts (rw f at rw (e, checked_batch) at h)
  ]
]

create_batch-Reported :
    (envs : ℕ → Env) (device_id : String) (n : ℕ) (ts : List Telemetry) (s0 s : FileStore)
    → All (IsReport device_id) ts
    → Reported device_id envs s0 n s
    → (m : ℕ) × (m ≤ n + length ts)
      × Reported device_id envs s0 m (create_batch file_telemetries envs n ts s).0
unfolding create_batch
create_batch-Reported envs device_id n [] s0 s h before = (n, omega arith, before)
create_batch-Reported envs device_id n (t ∷ ts) s0 s (q, h) before =
    let after_one = one_more t before q refl in
    elim (Result-cases (add_telemetry (envs n) t s).1) [
      | inr (x, e) ↦ rw (e, create_batch) (suc n, omega arith, after_one)
      | inl (t', e) ↦
          let (m, bound, more) =
            create_batch-Reported envs device_id (suc n) ts s0 (add_telemetry (envs n) t s).0 h
              after_one in
          rw (e, create_batch) (m, omega (arith, bound), more)
    ]

-- At most 100 reports were added.
abbrev FewReported : String → (ℕ → Env) → FileStore → FileStore → Type 0
FewReported device_id envs s s' = (n : ℕ) × (n ≤ 100) × Reported device_id envs s n s'

none_added : (device_id : String) (envs : ℕ → Env) (s : FileStore) → FewReported device_id envs s s
none_added device_id envs s = (0, omega arith, no_more)

module _ (json : TelemetryJson) (envs : ℕ → Env) (r : Request) (d : Device) (s : FileStore) where
  single-Reported : FewReported d.id envs s (handle_device_telemetry json (envs 0) r d s).0
  unfolding handle_device_telemetry
  single-Reported = elim (Checked-cases (json_body json.telemetry_json r)) [
    | inr (x, e) ↦ rw (e, handle_device_telemetry) (none_added d.id envs s)
    | inl (req, e) ↦ elim (Checked-cases (normalize_telemetry d.id req)) [
      | inr (x, f) ↦ rw (e, handle_device_telemetry) (rw f (none_added d.id envs s))
      | inl (t, f) ↦
          let added = one_more t no_more (normalize_telemetry-IsReport d.id req t f) refl in
          rw (e, handle_device_telemetry) (rw f (1, omega arith, added))
    ]
  ]

  batch-Reported : FewReported d.id envs s (handle_device_telemetry_batch json envs r d s).0
  unfolding handle_device_telemetry_batch
  batch-Reported = elim (Checked-cases (json_body json.batch_json r)) [
    | inr (x, e) ↦ rw (e, handle_device_telemetry_batch) (none_added d.id envs s)
    | inl (req, e) ↦ elim (Checked-cases (checked_batch d.id req.items)) [
      | inr (x, f) ↦ rw (e, handle_device_telemetry_batch) (rw f (none_added d.id envs s))
      | inl (ts, f) ↦
          let few = checked_batch-length d.id req.items ts f in
          let (m, bound, added) =
            create_batch-Reported envs d.id 0 ts s s (checked_batch-IsReport d.id req.items ts f)
              no_more in
          rw (e, handle_device_telemetry_batch) (rw f (m, omega (arith, bound, few), added))
    ]
  ]

-- Whatever a request to a telemetry route holds, and whichever system calls fail, all that it does
-- to the store is to add at most 100 records one after the other, each in the environment of its
-- turn, and each is a report of the device that the request names: it has a schema version of 1, a
-- boot identifier, a sequence number of 0 or more and a time.
pub serve_telemetry-Reported :
    (server : Server) (json : TelemetryJson) (envs : ℕ → Env) (route : TelemetryRoute) (r : Request)
    (s : FileStore)
    → (n : ℕ) × (n ≤ 100)
      × Reported (r.header "X-Device-ID") envs s n (serve_telemetry server json envs route r s).0
unfolding serve_telemetry route_telemetry
serve_telemetry-Reported server json envs route r s =
    elim (Checked-cases (require_device_auth server r s)) [
      | inr (x, e) ↦ rw (e, serve_telemetry) (none_added (r.header "X-Device-ID") envs s)
      | inl (d, e) ↦
          let (secret, named, hashed) = require_device_auth_lem server r s d e in
          rw (e, serve_telemetry) (rw⁻¹ named (by_route d route))
    ]
  where
    by_route :
        (d : Device) (route : TelemetryRoute)
        → FewReported d.id envs s (route_telemetry json envs route r d s).0
    by_route d single = single-Reported json envs r d s
    by_route d batch = batch-Reported json envs r d s
