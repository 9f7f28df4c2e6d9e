-- ===== src/Service/Telemetry.antt =====
-- internal/service/telemetry.go
use tinypanel_hub.Prelude.{ℕ, suc, String, List, [], ◌∷◌, ℤ}
use tinypanel_hub.Domain.{Telemetry}
use tinypanel_hub.Store.State.{Result, ok, err, Env}
use tinypanel_hub.Service.Interface.{TelemetryStore}

abbrev pub cons_ok : Telemetry → Result (List Telemetry) → Result (List Telemetry)
cons_ok t (err e) = err e
cons_ok t (ok ts) = ok (t ∷ ts)

module _ {S : Type 0} (store : TelemetryStore S) where
  abbrev pub list : Env → ℤ → S → List Telemetry
  list env limit s = store.telemetry env limit s

  abbrev pub device_list : Env → String → String → ℤ → S → S → List Telemetry
  device_list env owner_id device_id limit s log =
      store.device_telemetry env owner_id device_id limit s log

  abbrev pub create : Env → Telemetry → S → S × Result Telemetry
  create env item s = store.add_telemetry env item s

  -- `CreateBatch` from its `n`-th call of the store on; what the calls take from outside is `envs`.
  unfoldable pub create_batch : (ℕ → Env) → ℕ → List Telemetry → S → S × Result (List Telemetry)
  create_batch envs n [] s = (s, ok [])
  create_batch envs n (t ∷ ts) s =
      let (s', stored) = store.add_telemetry (envs n) t s in
      let (s'', rest) = create_batch envs (suc n) ts s' in
      elim stored [ err e ↦ (s', err e) | ok t' ↦ (s'', cons_ok t' rest) ]
