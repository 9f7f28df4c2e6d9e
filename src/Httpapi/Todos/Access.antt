-- ===== src/Httpapi/Todos/Access.antt =====
-- Whom the todo routes of internal/httpapi let change the todos.
use tinypanel_hub.Httpapi.Request.{Request, valid, Checked-cases}
use tinypanel_hub.Httpapi.Auth.{Server, require_user_auth}
use tinypanel_hub.Httpapi.Todos.{TodoJson, serve_todo, TodoRoute}
use tinypanel_hub.Httpapi.Todos.Effects.{
  TodoEffect, nothing, added, patched, removed, route_todo-TodoEffect,
}
use tinypanel_hub.Store.Todos.{todos}
use tinypanel_hub.Store.Todos.Isolation.{todos_isolated}
use tinypanel_hub.Prelude.{
  String, none, pos, eq_string, eq_int, eq_nat, ◌≡◌, refl, ap, ◌∙◌, ◌≢◌, inl, inr,
}
use tinypanel_hub.Domain.{TodoPatch, User}
use tinypanel_hub.Store.State.{FileStore, Env}

TodoEffect-todos :
    (env : Env) (user : User) (other : String) (s s' : FileStore)
    → user.id ≢ other
    → TodoEffect env user s s'
    → todos other s' ≡ todos other s
TodoEffect-todos env user other s s' ne (nothing e) = ap (todos other) e
TodoEffect-todos env user other s s' ne (added text status _ _ e) =
    let no_patch : TodoPatch = record { text = none; status = none } in
    ap (todos other) e
    ∙ (todos_isolated env user.id other (pos 0) (pos 0) no_patch text status s ne).0
TodoEffect-todos env user other s s' ne (patched id version p _ e) =
    ap (todos other) e ∙ (todos_isolated env user.id other id version p "" (pos 0) s ne).1
TodoEffect-todos env user other s s' ne (removed id version e) =
    let no_patch : TodoPatch = record { text = none; status = none } in
    ap (todos other) e ∙ (todos_isolated env user.id other id version no_patch "" (pos 0) s ne).2

-- A request to any todo route leaves the todos of an owner as they were, unless it is let in as
-- that owner: whatever its path, headers and body, and whichever system calls fail.
pub serve_todo-todos :
    (server : Server) (json : TodoJson) (env : Env) (route : TodoRoute) (r : Request)
    (other : String) (s : FileStore)
    → ((user : User) → require_user_auth server r s ≡ valid user → user.id ≢ other)
    → todos other (serve_todo server json env route r s).0 ≡ todos other s
unfolding serve_todo
serve_todo-todos server json env route r other s stranger =
    elim (Checked-cases (require_user_auth server r s)) [
      | inr (x, e) ↦ rw (e, serve_todo) refl
      | inl (user, e) ↦
          rw (e, serve_todo)
            (TodoEffect-todos env user other s _ (stranger user e)
              (route_todo-TodoEffect json env r user s route))
    ]
