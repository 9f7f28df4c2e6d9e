-- ===== src/Httpapi/Todos/Validation.antt =====
-- What the checks of internal/httpapi/todos.go make true of the stored todos.
use tinypanel_hub.Httpapi.Request.{Request, Checked-cases}
use tinypanel_hub.Httpapi.Auth.{Server, require_user_auth}
use tinypanel_hub.Httpapi.Todos.{TodoJson, serve_todo, TodoRoute}
use tinypanel_hub.Httpapi.Todos.Effects.{
  IsTodoText, IsTodoStatus, IsTodoPatch, IfSome, TodoEffect, nothing, added, patched, removed,
  route_todo-TodoEffect,
}
use tinypanel_hub.Prelude.{All-update_first, All-remove_first, find?-In, All-In}
use tinypanel_hub.Store.Commit.{commit-contents}
use tinypanel_hub.Store.Todos.{
  todo, is_todo, or_else, new_todo, add_todo_data, add_todo, patch_todo, update_todo, delete_todo,
}
use tinypanel_hub.Prelude.{
  String, Option, none, some, ℤ, ◌==◌, eq_string, eq_int, eq_nat, find?, All, All-append,
  Bool-cases, Option-cases, inl, inr,
}
use tinypanel_hub.Domain.{Todo, TodoPatch, User, Time}
use tinypanel_hub.Store.State.{FileStore, Env}

-- A stored todo that the handlers have checked.
abbrev pub IsTodo : Todo → Type 0
IsTodo t = IsTodoText t.text × IsTodoStatus t.status

patch_todo-IsTodo :
    (now : Time) (p : TodoPatch) (t : Todo) → IsTodoPatch p → IsTodo t → IsTodo (patch_todo now p t)
unfolding patch_todo
patch_todo-IsTodo now p t (a, b) (text, status) = (on_text p.text a, on_status p.status b)
  where
    on_text : (o : Option String) → IfSome IsTodoText o → IsTodoText (or_else o t.text)
    on_text none h = text
    on_text (some x) h = h

    on_status : (o : Option ℤ) → IfSome IsTodoStatus o → IsTodoStatus (or_else o t.status)
    on_status none h = status
    on_status (some x) h = h

abbrev AllTodos : FileStore → Type 0
AllTodos s = All IsTodo s.contents.todos

add_todo-AllTodos :
    (env : Env) (owner_id text : String) (status : ℤ) (s : FileStore)
    → IsTodoText text
    → IsTodoStatus status
    → AllTodos s
    → AllTodos (add_todo env owner_id text status s).0
unfolding add_todo add_todo_data new_todo
add_todo-AllTodos env owner_id text status s p q h =
    rw (commit-contents env _ s) (All-append IsTodo s.contents.todos _ h ((p, q), tt))

update_todo-AllTodos :
    (env : Env) (owner_id : String) (id version : ℤ) (p : TodoPatch) (s : FileStore)
    → IsTodoPatch p
    → AllTodos s
    → AllTodos (update_todo env owner_id id version p s).0
unfolding update_todo todo
update_todo-AllTodos env owner_id id version p s good h =
    elim (Option-cases (find? (is_todo owner_id id) s.contents.todos)) [
      | inl e ↦ rw (e, update_todo, todo) h
      | inr (t, e) ↦ elim (Bool-cases (t.version == version)) [
        | inr stale ↦ rw (e, update_todo, todo) (rw stale h)
        | inl current ↦
            let ts = s.contents.todos in
            let old : IsTodo t = All-In IsTodo t ts h (find?-In (is_todo owner_id id) ts t e) in
            rw (e, update_todo, todo)
              (rw current (
                rw (commit-contents env _ s) (
                  All-update_first (is_todo owner_id id) IsTodo ts _ h
                    (patch_todo-IsTodo env.now p t good old))))
      ]
    ]

delete_todo-AllTodos :
    (env : Env) (owner_id : String) (id version : ℤ) (s : FileStore)
    → AllTodos s
    → AllTodos (delete_todo env owner_id id version s).0
unfolding delete_todo todo
delete_todo-AllTodos env owner_id id version s h =
    elim (Option-cases (find? (is_todo owner_id id) s.contents.todos)) [
      | inl e ↦ rw (e, delete_todo, todo) h
      | inr (t, e) ↦ elim (Bool-cases (t.version == version)) [
        | inr stale ↦ rw (e, delete_todo, todo) (rw stale h)
        | inl current ↦
            rw (e, delete_todo, todo)
              (rw current (
                rw (commit-contents env _ s)
                  (All-remove_first IsTodo (is_todo owner_id id) s.contents.todos h)))
      ]
    ]

TodoEffect-AllTodos :
    (env : Env) (user : User) (s s' : FileStore)
    → TodoEffect env user s s'
    → AllTodos s
    → AllTodos s'
TodoEffect-AllTodos env user s s' (nothing e) h = rw e h
TodoEffect-AllTodos env user s s' (added text status p q e) h =
    rw e (add_todo-AllTodos env user.id text status s p q h)
TodoEffect-AllTodos env user s s' (patched id version p good e) h =
    rw e (update_todo-AllTodos env user.id id version p s good h)
TodoEffect-AllTodos env user s s' (removed id version e) h =
    rw e (delete_todo-AllTodos env user.id id version s h)

-- Every request to a todo route, whatever it holds, keeps it true of all stored todos that their
-- text is trimmed, not empty and of at most 50 characters, and their status 0, 1 or 2.
pub serve_todo-IsTodo :
    (server : Server) (json : TodoJson) (env : Env) (route : TodoRoute) (r : Request)
    (s : FileStore)
    → All IsTodo s.contents.todos
    → All IsTodo (serve_todo server json env route r s).0.contents.todos
unfolding serve_todo
serve_todo-IsTodo server json env route r s h =
    elim (Checked-cases (require_user_auth server r s)) [
      | inr (x, e) ↦ rw (e, serve_todo) h
      | inl (user, e) ↦
          rw (e, serve_todo)
            (TodoEffect-AllTodos env user s _ (route_todo-TodoEffect json env r user s route) h)
    ]
