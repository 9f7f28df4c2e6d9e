-- ===== src/Httpapi/Auth/Admission.antt =====
-- Who is let in by internal/httpapi/middleware.go.
use tinypanel_hub.Httpapi.Request.{
  reply_eq, valid_eq, write_error, Decoder, Request, Response, new_user_body, write_json,
  write_error, Checked, valid, reply, json_body, read_json, Checked-cases, valid_eq, reply_valid,
}
use tinypanel_hub.Httpapi.Auth.{
  Server, bearer_token, admin_authorized, require_user_auth, require_device_auth, public_user,
  new_token, handle_create_user,
}
use tinypanel_hub.Store.Commit.{commit-contents}
use tinypanel_hub.Prelude.{In, find?-In, find?-append_none}
use tinypanel_hub.Store.Users.{user_by_token_hash, create_user, new_user}
use tinypanel_hub.Store.Devices.{device_by_credentials}
use tinypanel_hub.Prelude.{
  String, none, some, ◌&&◌, ◌||◌, ◌==◌, eq_string, eq_int, eq_nat, trim_space, ◌≡◌, refl, sym, ap,
  ◌∙◌, arith, Bool-cases, Option-cases, ==_of_ne, eq_iff, eq_refl, ◌≢◌, inl, inr, find?-test,
}
use tinypanel_hub.Domain.{User, Device}
use tinypanel_hub.Store.State.{FileStore, Env, Result-cases}

-- A request is let in as a device where it has a secret, and the device has the identifier that the
-- request names and the hash of the secret.
pub require_device_auth_lem :
    (server : Server) (r : Request) (s : FileStore) (d : Device)
    → require_device_auth server r s ≡ valid d
    → (r.header "X-Device-Secret" ≢ "")
      × (d.id ≡ r.header "X-Device-ID")
      × (d.secret_hash ≡ server.token_hash (r.header "X-Device-Secret"))
unfolding require_device_auth device_by_credentials
require_device_auth_lem server r s d h =
    let id = r.header "X-Device-ID" in
    let secret = r.header "X-Device-Secret" in
    elim (Bool-cases (id == "" || secret == "")) [
      | inl e ↦ absurd (reply_valid (rw (e, require_device_auth) at h))
      | inr e ↦ elim (Option-cases (device_by_credentials id (server.token_hash secret) s)) [
        | inl none_e ↦ absurd (reply_valid (rw (e, require_device_auth) at rw none_e at h))
        | inr (d', found) ↦
            let same : d' ≡ d = valid_eq (rw found at rw (e, require_device_auth) at h) in
            let test =
              find?-test (λ (x : Device). x.id == id && x.secret_hash == server.token_hash secret)
                s.contents.devices d' found in
            ground (
              arith,
              test,
              same,
              e,
              eq_iff secret "",
              eq_iff d'.id id,
              eq_iff d'.secret_hash (server.token_hash secret),
            )
      ]
    ]

json_body-status :
    {A : Type 0} (dec : Decoder A) (r : Request) (x : Response)
    → json_body dec r ≡ reply x
    → x.status ≡ 400
unfolding json_body write_error
json_body-status dec r x h = elim (Result-cases (read_json dec r)) [
  | inl (a, e) ↦ absurd (reply_valid (sym (rw (e, json_body) at h)))
  | inr (y, e) ↦ sym (reply_status (rw (e, json_body) at h))
]
  where
    reply_status :
        {B : Type 0} {x y : Response}
        → ◌≡◌ {A = Checked B} (reply x) (reply y)
        → x.status ≡ y.status
    reply_status q = cc

user_by_token_hash-create_user :
    (env : Env) (name email token_hash : String) (s : FileStore)
    → user_by_token_hash token_hash s ≡ none
    → let (s', user, e) = create_user env name email token_hash s in
      user_by_token_hash token_hash s' ≡ some user
unfolding user_by_token_hash create_user new_user
user_by_token_hash-create_user env name email token_hash s unknown = rw (commit-contents env _ s) (
    find?-append_none (λ (u : User). u.api_token_hash == token_hash) s.contents.users _ unknown
    ∙ rw (eq_refl token_hash) refl)

require_user_auth_of :
    (server : Server) (r : Request) (s : FileStore) (token : String) (u : User)
    → bearer_token (r.header "Authorization") ≡ token
    → token ≢ ""
    → user_by_token_hash (server.token_hash token) s ≡ some u
    → require_user_auth server r s ≡ valid u
unfolding require_user_auth
require_user_auth_of server r s token u bears full found =
    rw (bears, require_user_auth) (rw (==_of_ne token "" full) (rw found refl))

new_user_eq :
    {a b : User} {x y : String} → new_user_body a x ≡ new_user_body b y → (a ≡ b) × (x ≡ y)
new_user_eq e = (cc, cc)

pub created_user-require_user_auth :
    (server : Server) (env : Env) (r r' : Request) (s s' : FileStore) (u : User) (token : String)
    → handle_create_user server env r s ≡ (s', write_json 201 (new_user_body u token))
    → bearer_token (r'.header "Authorization") ≡ token
    → token ≢ ""
    → user_by_token_hash (server.token_hash token) s ≡ none
    → (v : User) × (require_user_auth server r' s' ≡ valid v) × (public_user v ≡ u)
unfolding handle_create_user write_error
created_user-require_user_auth server env r r' s s' u token h bears full unknown =
    elim (Bool-cases (admin_authorized server r)) [
      | inr barred ↦ absurd (
          omega (
            arith,
            ap (λ (p : FileStore × Response). p.1.status) (rw (barred, handle_create_user) at h),
          ))
      | inl allowed ↦ elim (Checked-cases (json_body server.create_user_json r)) [
        | inr (x, e) ↦ absurd (
            omega (
              arith,
              json_body-status server.create_user_json r x e,
              ap (λ (p : FileStore × Response). p.1.status)
                  (rw e at rw (allowed, handle_create_user) at h),
            ))
        | inl (req, e) ↦
            let token' = new_token server req.api_token in
            let name = trim_space req.name in
            let email = trim_space req.email in
            let h1 = rw e at rw (allowed, handle_create_user) at h in
            elim (Option-cases (create_user env name email (server.token_hash token') s).2) [
              | inr (x, f) ↦
                  absurd (omega (arith, ap (λ (p : FileStore × Response). p.1.status) (rw f at h1)))
              | inl f ↦
                  let token_hash = server.token_hash token' in
                  let h2 = rw f at h1 in
                  let (same_user, same_token) =
                    new_user_eq (ap (λ (p : FileStore × Response). p.1.payload) h2) in
                  (
                    (create_user env name email token_hash s).1,
                    rw⁻¹ (ap (λ (p : FileStore × Response). p.0) h2) (
                        require_user_auth_of server r' _ token' _ (bears ∙ sym same_token)
                          (λ q. full (sym same_token ∙ q))
                          (user_by_token_hash-create_user env name email token_hash s (
                            ap (λ x. user_by_token_hash (server.token_hash x) s) same_token
                            ∙ unknown))),
                    same_user,
                  )
            ]
      ]
    ]

-- A request that is not let in as a user is answered by 401.
pub require_user_auth-reply :
    (server : Server) (r : Request) (s : FileStore) (x : Response)
    → require_user_auth server r s ≡ reply x
    → x ≡ write_error 401 "missing or invalid user token"
unfolding require_user_auth
require_user_auth-reply server r s x h =
    let token = bearer_token (r.header "Authorization") in
    elim (Bool-cases (token == "")) [
      | inl e ↦ sym (reply_eq (rw (e, require_user_auth) at h))
      | inr e ↦ elim (Option-cases (user_by_token_hash (server.token_hash token) s)) [
        | inl f ↦ sym (reply_eq (rw f at rw (e, require_user_auth) at h))
        | inr (u, f) ↦ absurd (reply_valid (sym (rw f at rw (e, require_user_auth) at h)))
      ]
    ]

pub require_user_auth-In :
    (server : Server) (r : Request) (s : FileStore) (u : User)
    → require_user_auth server r s ≡ valid u
    → In u s.contents.users
unfolding require_user_auth user_by_token_hash
require_user_auth-In server r s u h =
    let token = bearer_token (r.header "Authorization") in
    let hash = server.token_hash token in
    elim (Bool-cases (token == "")) [
      | inl e ↦ absurd (reply_valid (rw (e, require_user_auth) at h))
      | inr e ↦ elim (Option-cases (user_by_token_hash hash s)) [
        | inl f ↦ absurd (reply_valid (rw f at rw (e, require_user_auth) at h))
        | inr (v, f) ↦
            let same : v ≡ u = valid_eq (rw f at rw (e, require_user_auth) at h) in
            rw⁻¹ same (find?-In (λ (x : User). x.api_token_hash == hash) s.contents.users v f)
      ]
    ]
