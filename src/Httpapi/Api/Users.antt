-- ===== src/Httpapi/Api/Users.antt =====
-- How long the users of internal/httpapi/users.go are let in by internal/httpapi/middleware.go.
use tinypanel_hub.Httpapi.Request.{Request, write_json, new_user_body, valid, valid_eq, reply_valid}
use tinypanel_hub.Httpapi.Auth.{
  Server, bearer_token, require_user_auth, public_user, handle_create_user,
}
use tinypanel_hub.Httpapi.Auth.Admission.{created_user-require_user_auth}
use tinypanel_hub.Httpapi.Api.Steps.{create_user-Steps}
use tinypanel_hub.Store.Users.{user_by_token_hash}
use tinypanel_hub.Store.Reachable.{Reach}
use tinypanel_hub.Store.Reachable.Named.{Reach-MoreUsers}
use tinypanel_hub.Prelude.{
  ℕ, String, List, [], ◌∷◌, none, some, ◌==◌, eq_string, eq_int, eq_nat, ◌≡◌, refl, ap, All,
  Bool-cases, Option-cases, ◌≢◌, inl, inr, find?-append_some,
}
use tinypanel_hub.Domain.{User}
use tinypanel_hub.Store.State.{FileStore, Env}

-- A run of the store's operations leaves every token with the user that it names.
user_by_token_hash-Reach :
    (token_hash : String) (s : FileStore) (n : ℕ) (s' : FileStore) (u : User)
    → Reach s n s'
    → user_by_token_hash token_hash s ≡ some u
    → user_by_token_hash token_hash s' ≡ some u
unfolding user_by_token_hash
user_by_token_hash-Reach token_hash s n s' u run found =
    let (extra, more) = Reach-MoreUsers s n s' run in
    rw more (
      find?-append_some (λ (u : User). u.api_token_hash == token_hash) s.contents.users extra u
        found)

require_user_auth-Reach :
    (server : Server) (r : Request) (s : FileStore) (n : ℕ) (s' : FileStore) (u : User)
    → Reach s n s'
    → require_user_auth server r s ≡ valid u
    → require_user_auth server r s' ≡ valid u
unfolding require_user_auth
require_user_auth-Reach server r s n s' u run h =
    let token = bearer_token (r.header "Authorization") in
    let hash = server.token_hash token in
    elim (Bool-cases (token == "")) [
      | inl e ↦ absurd (reply_valid (rw (e, require_user_auth) at h))
      | inr e ↦ elim (Option-cases (user_by_token_hash hash s)) [
        | inl f ↦ absurd (reply_valid (rw f at rw (e, require_user_auth) at h))
        | inr (v, f) ↦
            let same : v ≡ u = valid_eq (rw f at rw (e, require_user_auth) at h) in
            let later = user_by_token_hash-Reach hash s n s' v run f in
            rw (e, require_user_auth) (rw later (rw same refl))
      ]
    ]

-- Each request is let in as its user.
abbrev pub LetIn : Server → FileStore → List (Request × User) → Type 0
LetIn server s = All (λ (p : Request × User). require_user_auth server p.0 s ≡ valid p.1)

LetIn-Reach :
    (server : Server) (s : FileStore) (n : ℕ) (s' : FileStore) (ps : List (Request × User))
    → Reach s n s'
    → LetIn server s ps
    → LetIn server s' ps
LetIn-Reach server s n s' [] run h = tt
LetIn-Reach server s n s' ((r, u) ∷ ps) run (h, rest) =
    (require_user_auth-Reach server r s n s' u run h, LetIn-Reach server s n s' ps run rest)

-- A user who was created by a request that was answered with 201 and a token is let in by every
-- request that bears this token, if the token is not empty and its hash was new, in the state after
-- the creation and in every state that the operations of the store lead to from there. Whoever was
-- let in before the creation is let in there too, as the same user.
pub handle_create_user-require_user_auth :
    (server : Server) (env : Env) (r r' : Request) (s s' s'' : FileStore) (u : User)
    (token : String) (n : ℕ) (before : List (Request × User))
    → handle_create_user server env r s ≡ (s', write_json 201 (new_user_body u token))
    → bearer_token (r'.header "Authorization") ≡ token
    → token ≢ ""
    → user_by_token_hash (server.token_hash token) s ≡ none
    → Reach s' n s''
    → LetIn server s before
    → ((v : User) × (require_user_auth server r' s'' ≡ valid v) × (public_user v ≡ u))
      × LetIn server s'' before
handle_create_user-require_user_auth server env r r' s s' s'' u token n before h bears full unknown
      run let_in =
    let (v, first, shown) =
      created_user-require_user_auth server env r r' s s' u token h bears full unknown in
    let (k, few, creation) = create_user-Steps env r s server in
    let after : LetIn server s' before =
      rw⁻¹ (ap (λ p. p.0) h) (LetIn-Reach server s k _ before creation let_in) in
    (
      (v, require_user_auth-Reach server r' s' n s'' v run first, shown),
      LetIn-Reach server s' n s'' before run after,
    )
