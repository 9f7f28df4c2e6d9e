-- ===== src/Httpapi/Todos.antt =====
-- internal/httpapi/todos.go: the todo handlers, for the user or the device that was let in.
pub mod Effects
pub mod Access
pub mod Validation
use Prim.Native.String.{count}
use tinypanel_hub.Service.Todos as TodoService
use tinypanel_hub.Service.Files.{file_todos}
use tinypanel_hub.Httpapi.Request.{
  Decoder, Request, Response, no_content, version_conflict, todo_body, todos_body, write_json,
  write_error, write_store_error, Checked, valid, reply, json_body, path_id,
}
use tinypanel_hub.Httpapi.Auth.{Server, require_user_auth}
use tinypanel_hub.Store.Todos.{todo, TodoUpdate, missing, conflict, swapped, TodoDelete, deleted}
use tinypanel_hub.Prelude.{
  ℕ, String, [], Option, none, some, ℤ, pos, Bool, true, false, not, ◌&&◌, if◌then◌else◌, ◌==◌,
  eq_string, eq_int, eq_nat, ltb, leb_ℤ, trim_space,
}
use tinypanel_hub.Domain.{TodoPatch, User, Device}
use tinypanel_hub.Store.State.{FileStore, Env}

pub record PostTodo : Type 0 where
  pub text : String
  pub status : ℤ

pub record PatchTodo : Type 0 where
  pub version : ℤ
  pub text : Option String
  pub status : Option ℤ

pub record DeleteTodo : Type 0 where
  pub version : ℤ

-- The decoders of the bodies that the todo handlers read.
pub record TodoJson : Type 0 where
  pub post_todo_json : Decoder PostTodo
  pub patch_todo_json : Decoder PatchTodo
  pub delete_todo_json : Decoder DeleteTodo

abbrev pub max_todo_text_runes : ℕ
max_todo_text_runes = 50

unfoldable pub normalize_todo_text : String → Checked String
unfolding write_error
normalize_todo_text text =
    let trimmed = trim_space text in
    if trimmed == ""
    then reply (write_error 400 "text is required")
    else if ltb max_todo_text_runes (count trimmed)
    then reply (write_error 400 "text must not exceed 50 characters")
    else valid trimmed

abbrev pub valid_todo_status : ℤ → Bool
valid_todo_status status = leb_ℤ (pos 0) status && leb_ℤ status (pos 2)

-- `handleGetTodos`
unfoldable pub handle_get_todos : User → FileStore → Response
handle_get_todos user s = write_json 200 (todos_body (TodoService.list file_todos user.id s))

-- `handleDeviceTodos`
unfoldable pub handle_device_todos : Device → FileStore → Response
handle_device_todos device s =
    if device.owner_id == ""
    then write_json 200 (todos_body [])
    else write_json 200 (todos_body (TodoService.list file_todos device.owner_id s))

-- The end of `handlePostTodo`
unfoldable pub create_todo : Env → User → String → ℤ → FileStore → FileStore × Response
unfolding write_error
create_todo env user text status s =
    let (s', t, e) = TodoService.create file_todos env user.id text status s in
    elim e [ some _ ↦ (s', write_store_error) | none ↦ (s', write_json 201 (todo_body t)) ]

-- `handlePostTodo`
unfoldable pub handle_post_todo : TodoJson → Env → Request → User → FileStore → FileStore × Response
unfolding json_body normalize_todo_text write_error create_todo
handle_post_todo json env r user s = elim (json_body json.post_todo_json r) [
  | reply x ↦ (s, x)
  | valid req ↦ elim (normalize_todo_text req.text) [
    | reply x ↦ (s, x)
    | valid text ↦
        if not (valid_todo_status req.status)
        then (s, write_error 400 "status must be 0, 1, or 2")
        else create_todo env user text req.status s
  ]
]

-- `handleGetTodo`
unfoldable pub handle_get_todo : Request → User → FileStore → Response
unfolding path_id write_error
handle_get_todo r user s = elim (path_id r "id") [
  | reply x ↦ x
  | valid id ↦ elim (TodoService.get file_todos user.id id s) [
    | none ↦ write_error 404 "todo not found"
    | some t ↦ write_json 200 (todo_body t)
  ]
]

-- The text of the patch, normalised where there is one.
unfoldable pub patched_text : Option String → Checked (Option String)
unfolding normalize_todo_text
patched_text none = valid none
patched_text (some text) = elim (normalize_todo_text text) [
  | reply x ↦ reply x
  | valid t ↦ valid (some t)
]

unfoldable pub patched_status : Option ℤ → Checked (Option ℤ)
unfolding write_error
patched_status none = valid none
patched_status (some status) =
    if not (valid_todo_status status)
    then reply (write_error 400 "status must be 0, 1, or 2")
    else valid (some status)

abbrev pub is_none : {A : Type 0} → Option A → Bool
is_none none = true
is_none (some a) = false

-- The patch that `handlePatchTodo` builds from the body, with its checks.
unfoldable pub todo_patch : PatchTodo → Checked TodoPatch
unfolding patched_text patched_status write_error
todo_patch req =
    if leb_ℤ req.version (pos 0)
    then reply (write_error 400 "version must be a positive integer")
    else if is_none req.text && is_none req.status
    then reply (write_error 400 "text or status is required")
    else elim (patched_text req.text) [
      | reply x ↦ reply x
      | valid text ↦ elim (patched_status req.status) [
        | reply x ↦ reply x
        | valid status ↦ valid (record { text = text; status = status })
      ]
    ]

-- The response to the results of `Update`
unfoldable pub update_reply : TodoUpdate → Response
unfolding write_error
update_reply missing = write_error 404 "todo not found"
update_reply (conflict t) = write_json 409 (version_conflict t.version)
update_reply (swapped t (some e)) = write_store_error
update_reply (swapped t none) = write_json 200 (todo_body t)

-- `handlePatchTodo`
unfoldable pub handle_patch_todo :
    TodoJson → Env → Request → User → FileStore → FileStore × Response
unfolding path_id json_body todo_patch update_reply
handle_patch_todo json env r user s = elim (path_id r "id") [
  | reply x ↦ (s, x)
  | valid id ↦ elim (json_body json.patch_todo_json r) [
    | reply x ↦ (s, x)
    | valid req ↦ elim (todo_patch req) [
      | reply x ↦ (s, x)
      | valid patch ↦
          let (s', u) = TodoService.update file_todos env user.id id req.version patch s in
          (s', update_reply u)
    ]
  ]
]

-- The response to the results of `Delete`
unfoldable pub delete_reply : TodoDelete → Response
unfolding write_error
delete_reply TodoDelete.missing = write_error 404 "todo not found"
delete_reply TodoDelete.conflict = write_error 409 "todo version conflict"
delete_reply (deleted (some e)) = write_store_error
delete_reply (deleted none) = write_json 204 no_content

-- `handleDeleteTodo`
unfoldable pub handle_delete_todo :
    TodoJson → Env → Request → User → FileStore → FileStore × Response
unfolding path_id json_body delete_reply write_error
handle_delete_todo json env r user s = elim (path_id r "id") [
  | reply x ↦ (s, x)
  | valid id ↦ elim (json_body json.delete_todo_json r) [
    | reply x ↦ (s, x)
    | valid req ↦
        if leb_ℤ req.version (pos 0)
        then (s, write_error 400 "version must be a positive integer")
        else (let (s', d) = TodoService.delete file_todos env user.id id req.version s in
            (s', delete_reply d))
  ]
]

-- The routes under /todos
pub data TodoRoute : Type 0 where
  list : TodoRoute
  post : TodoRoute
  get : TodoRoute
  patch : TodoRoute
  delete : TodoRoute

-- The handler of a route
unfoldable pub route_todo :
    TodoJson → Env → TodoRoute → Request → User → FileStore → FileStore × Response
unfolding handle_get_todos handle_post_todo handle_get_todo handle_patch_todo handle_delete_todo
route_todo json env list r user s = (s, handle_get_todos user s)
route_todo json env post r user s = handle_post_todo json env r user s
route_todo json env get r user s = (s, handle_get_todo r user s)
route_todo json env patch r user s = handle_patch_todo json env r user s
route_todo json env delete r user s = handle_delete_todo json env r user s

-- A request to a route, behind `requireUserAuth`
unfoldable pub serve_todo :
    Server → TodoJson → Env → TodoRoute → Request → FileStore → FileStore × Response
unfolding route_todo
serve_todo server json env route r s = elim (require_user_auth server r s) [
  | reply x ↦ (s, x)
  | valid user ↦ route_todo json env route r user s
]
