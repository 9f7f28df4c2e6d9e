-- ===== src/Httpapi/Snapshots/Reads.antt =====
-- The answers of the reading routes of internal/httpapi.
use tinypanel_hub.Httpapi.Request.{Request, write_error, valid, path_string, Checked-cases}
use tinypanel_hub.Httpapi.Auth.{Server, require_user_auth}
use tinypanel_hub.Httpapi.Auth.Admission.{require_user_auth-reply, require_user_auth-In}
use tinypanel_hub.Httpapi.Snapshots.{
  get_snapshot, snapshot_include, included, filtered_snapshot, snapshot_reply, handle_snapshot,
  handle_get_weather, get_weather, handle_get_device_telemetry, ReadRoute, snapshots, forecasts,
  telemetries, route_read, serve_read,
}
use tinypanel_hub.Prelude.{All-In}
use tinypanel_hub.Httpapi.Snapshots.Own.{
  IsOwn, IsOwnSnapshot, IsOwnMessage, IsOwnTodo, IsOwnRecord, IfPresent, snapshot-IsOwnSnapshot,
  device_telemetry-IsOwn,
}
use tinypanel_hub.Domain.{Weather, Snapshot}
use tinypanel_hub.Prelude.{
  String, List, [], ◌∷◌, Option, none, some, ◌==◌, eq_string, eq_int, eq_nat, any, ◌≡◌, All,
  Bool-cases, ◌≢◌, ◌⊎◌, inl, inr,
}
use tinypanel_hub.Domain.{User}
use tinypanel_hub.Store.State.{Result, ok, err, ok_eq, ok_err, FileStore, Env, Result-cases}

included-IfPresent :
    {A : Type 0} (P : A → Type 0) (name : String) (include : List String) (xs : List A)
    → All P xs
    → IfPresent P (included name include xs)
included-IfPresent P name include xs h = elim (Bool-cases (any (λ item. item == name) include)) [
  | inl e ↦ rw e h
  | inr e ↦ rw e tt
]

module _ (env : Env) (provider : Option (Result Weather)) (r : Request) (user : User)
    (s log : FileStore) where
  get_snapshot-IsOwnSnapshot :
      (x : Snapshot) → get_snapshot env provider user.id s log ≡ ok x → IsOwnSnapshot s user.id x
  unfolding get_snapshot
  get_snapshot-IsOwnSnapshot x h = by_provider provider h
    where
      by_provider :
          (p : Option (Result Weather))
          → get_snapshot env p user.id s log ≡ ok x
          → IsOwnSnapshot s user.id x
      by_provider none q = rw⁻¹ (ok_eq q) (snapshot-IsOwnSnapshot env user.id s log)
      by_provider (some (err e)) q = absurd (ok_err q)
      by_provider (some (ok w)) q =
          let own = snapshot-IsOwnSnapshot env user.id s log in
          rw⁻¹ (ok_eq q)
            (record { messages = own.messages; todos = own.todos; telemetry = own.telemetry })

  snapshot_reply-IsOwn :
      (x : Snapshot) (include : List String)
      → IsOwnSnapshot s user.id x
      → IsOwn s user.id (snapshot_reply x include).payload
  unfolding snapshot_reply filtered_snapshot
  snapshot_reply-IsOwn x [] own = own
  snapshot_reply-IsOwn x (y ∷ ys) own = (
    included-IfPresent (IsOwnMessage user.id) "messages" (y ∷ ys) x.messages own.messages,
    included-IfPresent (IsOwnTodo user.id) "todos" (y ∷ ys) x.todos own.todos,
    included-IfPresent (IsOwnRecord s user.id) "telemetry" (y ∷ ys) x.telemetry own.telemetry,
  )

  handle_snapshot-IsOwn : IsOwn s user.id (handle_snapshot env provider r user s log).payload
  unfolding handle_snapshot write_error
  handle_snapshot-IsOwn = elim (Result-cases (get_snapshot env provider user.id s log)) [
    | inr (e, f) ↦ rw (f, handle_snapshot) tt
    | inl (x, f) ↦
        rw (f, handle_snapshot)
          (snapshot_reply-IsOwn x (snapshot_include r) (get_snapshot-IsOwnSnapshot x f))
  ]

  handle_get_weather-IsOwn : IsOwn s user.id (handle_get_weather provider s).payload
  unfolding handle_get_weather write_error
  handle_get_weather-IsOwn = elim (Result-cases (get_weather provider s)) [
    | inr (e, f) ↦ rw (f, handle_get_weather) tt
    | inl (w, f) ↦ rw (f, handle_get_weather) tt
  ]

  pub route_read-IsOwn :
      (route : ReadRoute)
      → user.id ≢ ""
      → IsOwn s user.id (route_read env provider route r user s log).payload
  unfolding route_read handle_get_device_telemetry
  route_read-IsOwn snapshots named = handle_snapshot-IsOwn
  route_read-IsOwn forecasts named = handle_get_weather-IsOwn
  route_read-IsOwn telemetries named =
      device_telemetry-IsOwn env user.id (path_string r "device_id") _ s log named

-- Every request for a snapshot, for the weather or for the telemetry of a device is refused with
-- 401, or let in as a user and answered by an error or by what is this user's: the weather, the
-- user's own messages and todos, and records of devices that are stored as the user's while the
-- handler holds the lock. The middleware and the reading of the log may see any other states of the
-- store. The users that the middleware sees have identifiers.
pub serve_read-IsOwn :
    (server : Server) (env : Env) (provider : Option (Result Weather)) (route : ReadRoute)
    (r : Request) (auth s log : FileStore)
    → All (λ (u : User). u.id ≢ "") auth.contents.users
    → (serve_read server env provider route r auth s log
        ≡ write_error 401 "missing or invalid user token")
      ⊎ ((user : User) × (require_user_auth server r auth ≡ valid user)
          × IsOwn s user.id (serve_read server env provider route r auth s log).payload)
unfolding serve_read
serve_read-IsOwn server env provider route r auth s log named =
    elim (Checked-cases (require_user_auth server r auth)) [
      | inr (x, e) ↦ inl (rw (e, serve_read) (require_user_auth-reply server r auth x e))
      | inl (user, e) ↦ inr (
        user,
        e,
        rw (e, serve_read)
            (route_read-IsOwn env provider r user s log route (
              All-In (λ (u : User). u.id ≢ "") user auth.contents.users named
                (require_user_auth-In server r auth user e))),
      )
    ]
