-- ===== src/Httpapi/Api/Runs.antt =====
-- Requests to internal/httpapi as runs of the operations of internal/store.
use tinypanel_hub.Httpapi.Request.{Response, valid, Checked-cases}
use tinypanel_hub.Httpapi.Auth.{require_user_auth, require_device_auth}
use tinypanel_hub.Httpapi.Auth.Admission.{require_user_auth-In}
use tinypanel_hub.Httpapi.Todos.{serve_todo}
use tinypanel_hub.Httpapi.Devices.{serve_device}
use tinypanel_hub.Httpapi.Messages.{serve_ack}
use tinypanel_hub.Httpapi.Telemetry.{serve_telemetry}
use tinypanel_hub.Httpapi.Api.{
  Hub, Call, Route, health, users, hello, inbox, acks, device_todos, reports, device_snapshot, me,
  reads, devices, messages, todos, unknown, serve_message, serve_route, serve, serve_all,
}
use tinypanel_hub.Httpapi.Api.Reports.{telemetry-Steps}
use tinypanel_hub.Httpapi.Api.Steps.{
  Steps, no_step, create_user-Steps, hello-Steps, todo-Steps, device-Steps, message-Steps,
  ack-Steps,
}
use tinypanel_hub.Store.Devices.Preservation.{IsNonempty}
use tinypanel_hub.Store.File.{new_state_data}
use tinypanel_hub.Store.Validity.{IsValid, later-IsValid}
use tinypanel_hub.Store.Reachable.{Reach, here, next}
use tinypanel_hub.Store.Reachable.Invariant.{Reach-IsValid}
use tinypanel_hub.Store.Reachable.Named.{IsNamed, Reach-IsNamed}
use tinypanel_hub.Prelude.{All-In, some_eq}
use tinypanel_hub.Prelude.{
  ℕ, zero, suc, ◌+◌, ◌-◌, ◌*◌, ◌≤◌, List, [], ◌∷◌, none, some, eq_string, eq_int, eq_nat, length,
  ◌≡◌, arith, All, Option-cases, ◌≢◌, inl, inr,
}
use tinypanel_hub.Domain.{User, Time}
use tinypanel_hub.Store.State.{StateData, FileStore}

-- The codes drawn for a request are not empty.
abbrev pub HasCodes : Call → Type 0
HasCodes c = All IsNonempty (c.envs 0).codes

module _ (hub : Hub) (c : Call) (s : FileStore) (named : IsNamed s) where
  named_user : (user : User) → require_user_auth hub.server c.request s ≡ valid user → user.id ≢ ""
  named_user user e =
      All-In (λ (u : User). u.id ≢ "") user s.contents.users named
        (require_user_auth-In hub.server c.request s user e)

  serve_route-Steps :
      (route : Route) (a : FileStore × Response)
      → HasCodes c
      → serve_route hub c route s ≡ some a
      → Steps s a.0
  unfolding serve_route serve_ack serve_telemetry serve_device serve_message serve_todo
  serve_route-Steps health a codes h = rw⁻¹ (some_eq h) no_step
  serve_route-Steps users a codes h =
      rw⁻¹ (some_eq h) (create_user-Steps (c.envs 0) c.request s hub.server)
  serve_route-Steps hello a codes h =
      hello-Steps (c.envs 0) c.request s hub.server hub.device_json a codes h
  serve_route-Steps inbox a codes h = rw⁻¹ (some_eq h) no_step
  serve_route-Steps acks a codes h =
      rw⁻¹ (some_eq h) (elim (Checked-cases (require_device_auth hub.server c.request s)) [
        | inr (x, e) ↦ rw (e, serve_ack) no_step
        | inl (d, e) ↦ rw (e, serve_ack) (ack-Steps (c.envs 0) c.request s hub.message_json d)
      ])
  serve_route-Steps device_todos a codes h = rw⁻¹ (some_eq h) no_step
  serve_route-Steps (reports route) a codes h =
      rw⁻¹ (some_eq h) (elim (Checked-cases (require_device_auth hub.server c.request s)) [
        | inr (x, e) ↦ rw (e, serve_telemetry) no_step
        | inl (d, e) ↦
            rw (e, serve_telemetry) (telemetry-Steps hub.telemetry_json c.envs c.request d s route)
      ])
  serve_route-Steps device_snapshot a codes h = rw⁻¹ (some_eq h) no_step
  serve_route-Steps me a codes h = rw⁻¹ (some_eq h) no_step
  serve_route-Steps (reads route) a codes h = rw⁻¹ (some_eq h) no_step
  serve_route-Steps (devices route) a codes h =
      rw⁻¹ (some_eq h) (elim (Checked-cases (require_user_auth hub.server c.request s)) [
        | inr (x, e) ↦ rw (e, serve_device) no_step
        | inl (user, e) ↦
            rw (e, serve_device)
              (device-Steps (c.envs 0) c.request s user (named_user user e) hub.device_json route)
      ])
  serve_route-Steps (messages route) a codes h =
      rw⁻¹ (some_eq h) (elim (Checked-cases (require_user_auth hub.server c.request s)) [
        | inr (x, e) ↦ rw (e, serve_message) no_step
        | inl (user, e) ↦
            rw (e, serve_message)
              (message-Steps (c.envs 0) c.request s user (named_user user e) hub.message_json route)
      ])
  serve_route-Steps (todos route) a codes h =
      rw⁻¹ (some_eq h) (elim (Checked-cases (require_user_auth hub.server c.request s)) [
        | inr (x, e) ↦ rw (e, serve_todo) no_step
        | inl (user, e) ↦
            rw (e, serve_todo)
              (todo-Steps (c.envs 0) c.request s user (named_user user e) hub.todo_json route)
      ])
  serve_route-Steps (unknown page path) a codes h = rw⁻¹ (some_eq h) no_step

Reach-append :
    (s t : FileStore) (n : ℕ) (u : FileStore) (m : ℕ)
    → Reach s n t
    → Reach t m u
    → (k : ℕ) × (k ≡ m + n) × Reach s k u
Reach-append s t n u m before here = (n, omega arith, before)
Reach-append s t n u m before (next {n = j} {t = v} r step) =
    let (k, e, run) = Reach-append s t n v j before r in (suc k, omega (arith, e), next run step)

-- Whatever requests come, to whichever routes, let in or refused, and whichever system calls fail:
-- what they do to the store is a run of the operations of the store, at most 100 for each request,
-- and users keep an identifier, if they have one at first and no code drawn is empty.
pub serve_all-Reach :
    (hub : Hub) (calls : List Call) (s s' : FileStore)
    → IsNamed s
    → All HasCodes calls
    → serve_all hub calls s ≡ some s'
    → (n : ℕ) × (n ≤ 100 * length calls) × Reach s n s' × IsNamed s'
unfolding serve_all serve
serve_all-Reach hub [] s s' named codes h = rw⁻¹ (some_eq h) (0, omega arith, here, named)
serve_all-Reach hub (c ∷ calls) s s' named (q, codes) h =
    elim (Option-cases (serve_route hub c c.route s)) [
      | inl e ↦ absurd (none_some (rw (e, serve_all) at h))
      | inr (a, e) ↦
          let (n, few, first) = serve_route-Steps hub c s named c.route a q e in
          let (m, bound, rest, named') =
            serve_all-Reach hub calls a.0 s' (Reach-IsNamed s n a.0 first named) codes
              (rw (e, serve_all) at h) in
          let (k, total, run) = Reach-append s a.0 n s' m first rest in
          (k, omega (arith, few, bound, total), run, named')
    ]
  where
    none_some : {A : Type 0} {a : A} → none ≡ some a → ⊥
    none_some q = cc

zero_add_nat : (n : ℕ) → 0 + n ≡ n
zero_add_nat n = omega arith

suc_add_nat : (k n : ℕ) → suc k + n ≡ suc (k + n)
suc_add_nat k n = omega arith

much_later : (k n : ℕ) (d : StateData) → IsValid n d → IsValid (k + n) d
much_later zero n d h = rw (zero_add_nat n) h
much_later (suc k) n d h = rw (suc_add_nat k n) (later-IsValid (k + n) d (much_later k n d h))

room : (n m : ℕ) → n ≤ m → (k : ℕ) × (m ≡ k + n)
room n m h = (m - n, omega (arith, h))

-- On a new store every sequence of requests leaves a well-formed state, if there are at most
-- 92233720368547758 of them and no code drawn is empty: an inbox of at most 100 messages,
-- identifiers that increase, versions of one or more, and devices with distinct identifiers and
-- codes that either wait with a code or are owned without one.
pub serve_all-IsValid :
    (now : Time) (hub : Hub) (calls : List Call) (s s' : FileStore)
    → s.contents ≡ new_state_data now
    → All HasCodes calls
    → length calls ≤ 92233720368547758
    → serve_all hub calls s ≡ some s'
    → IsValid (100 * length calls) s'.contents
unfolding new_state_data
serve_all-IsValid now hub calls s s' new codes few h =
    let (n, bound, run, named) = serve_all-Reach hub calls s s' (rw new tt) codes h in
    let (k, total) = room n (100 * length calls) bound in
    rw total
      (much_later k n s'.contents (Reach-IsValid now s n s' new (omega (arith, bound, few)) run))
