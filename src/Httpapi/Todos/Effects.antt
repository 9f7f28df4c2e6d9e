-- ===== src/Httpapi/Todos/Effects.antt =====
-- What the todo handlers of internal/httpapi/todos.go do to the store.
use Prim.Native.String.{count}
use tinypanel_hub.Httpapi.Request.{
  Request, valid, json_body, path_id, Checked-cases, valid_eq, reply_valid,
}
use tinypanel_hub.Httpapi.Todos.{
  TodoJson, PatchTodo, normalize_todo_text, valid_todo_status, create_todo, handle_post_todo,
  handle_patch_todo, handle_delete_todo, patched_text, patched_status, todo_patch, route_todo,
  TodoRoute, list, post, get, patch, delete, is_none,
}
use tinypanel_hub.Store.Todos.{add_todo, update_todo, delete_todo}
use tinypanel_hub.Prelude.{
  ◌≤◌, String, Option, none, some, ℤ, pos, true, ◌&&◌, ◌==◌, eq_string, eq_int, eq_nat, ltb, leb_ℤ,
  trim_space, ◌≡◌, refl, arith, Bool-cases, Option-cases, ne_of_==, ◌≢◌, inl, inr, ◌≤ℤ◌,
}
use tinypanel_hub.Domain.{TodoPatch, User}
use tinypanel_hub.Store.State.{FileStore, Env}

-- A text that a handler lets through: trimmed, not empty and of at most 50 characters.
abbrev pub IsTodoText : String → Type 0
IsTodoText text = (text ≢ "") × (count text ≤ 50) × ((raw : String) × (text ≡ trim_space raw))

abbrev pub IsTodoStatus : ℤ → Type 0
IsTodoStatus status = (pos 0 ≤ℤ status) × (status ≤ℤ pos 2)

abbrev pub IfSome : {A : Type 0} → (A → Type 0) → Option A → Type 0
IfSome P none = Unit
IfSome P (some a) = P a

abbrev pub IsTodoPatch : TodoPatch → Type 0
IsTodoPatch p = IfSome IsTodoText p.text × IfSome IsTodoStatus p.status

normalize_todo_text_lem :
    (raw text : String) → normalize_todo_text raw ≡ valid text → IsTodoText text
unfolding normalize_todo_text
normalize_todo_text_lem raw text h = elim (Bool-cases (trim_space raw == "")) [
  | inl e ↦ absurd (reply_valid (rw (e, normalize_todo_text) at h))
  | inr e ↦ elim (Bool-cases (ltb 50 (count (trim_space raw)))) [
    | inl long ↦ absurd (reply_valid (rw (e, normalize_todo_text) at rw long at h))
    | inr short ↦
        let same : trim_space raw ≡ text =
          valid_eq (rw short at rw (e, normalize_todo_text) at h) in
        rw⁻¹ same (ne_of_== (trim_space raw) "" e, ground arith, (raw, refl))
  ]
]

valid_todo_status_lem : (status : ℤ) → valid_todo_status status ≡ true → IsTodoStatus status
valid_todo_status_lem status h = ground arith

patched_text_lem : (o p : Option String) → patched_text o ≡ valid p → IfSome IsTodoText p
unfolding patched_text
patched_text_lem none p h = rw⁻¹ (valid_eq h) tt
patched_text_lem (some raw) p h = elim (Checked-cases (normalize_todo_text raw)) [
  | inr (x, e) ↦ absurd (reply_valid (rw (e, patched_text) at h))
  | inl (t, e) ↦ rw⁻¹ (valid_eq (rw (e, patched_text) at h)) (normalize_todo_text_lem raw t e)
]

patched_status_lem : (o p : Option ℤ) → patched_status o ≡ valid p → IfSome IsTodoStatus p
unfolding patched_status
patched_status_lem none p h = rw⁻¹ (valid_eq h) tt
patched_status_lem (some status) p h = elim (Bool-cases (valid_todo_status status)) [
  | inr e ↦ absurd (reply_valid (rw (e, patched_status) at h))
  | inl e ↦ rw⁻¹ (valid_eq (rw (e, patched_status) at h)) (valid_todo_status_lem status e)
]

todo_patch_lem : (req : PatchTodo) (p : TodoPatch) → todo_patch req ≡ valid p → IsTodoPatch p
unfolding todo_patch
todo_patch_lem req p h = elim (Bool-cases (leb_ℤ req.version (pos 0))) [
  | inl e ↦ absurd (reply_valid (rw (e, todo_patch) at h))
  | inr e ↦ elim (Bool-cases (is_none req.text && is_none req.status)) [
    | inl none_e ↦ absurd (reply_valid (rw none_e at rw (e, todo_patch) at h))
    | inr some_e ↦
        let h1 = rw some_e at rw (e, todo_patch) at h in
        elim (Checked-cases (patched_text req.text)) [
          | inr (x, q) ↦ absurd (reply_valid (rw q at h1))
          | inl (text, q) ↦ elim (Checked-cases (patched_status req.status)) [
            | inr (x, u) ↦ absurd (reply_valid (rw u at rw q at h1))
            | inl (status, u) ↦
                rw⁻¹ (valid_eq (rw u at rw q at h1))
                  (patched_text_lem req.text text q, patched_status_lem req.status status u)
          ]
        ]
  ]
]

-- The store `s'` after a request of the user: as it was, or after one operation on the user's todos
-- whose arguments were checked.
pub data TodoEffect (env : Env) (user : User) (s s' : FileStore) : Type 0 where
  nothing : s' ≡ s → TodoEffect env user s s'
  added :
      (text : String) (status : ℤ)
      → IsTodoText text
      → IsTodoStatus status
      → s' ≡ (add_todo env user.id text status s).0
      → TodoEffect env user s s'
  patched :
      (id version : ℤ) (p : TodoPatch)
      → IsTodoPatch p
      → s' ≡ (update_todo env user.id id version p s).0
      → TodoEffect env user s s'
  removed :
      (id version : ℤ) → s' ≡ (delete_todo env user.id id version s).0 → TodoEffect env user s s'

module _ (json : TodoJson) (env : Env) (r : Request) (user : User) (s : FileStore) where
  create_todo-store :
      (text : String) (status : ℤ)
      → (create_todo env user text status s).0 ≡ (add_todo env user.id text status s).0
  unfolding create_todo
  create_todo-store text status = elim (Option-cases (add_todo env user.id text status s).2) [
    | inl e ↦ rw (e, create_todo) refl
    | inr (x, e) ↦ rw (e, create_todo) refl
  ]

  post-TodoEffect : TodoEffect env user s (handle_post_todo json env r user s).0
  unfolding handle_post_todo
  post-TodoEffect = elim (Checked-cases (json_body json.post_todo_json r)) [
    | inr (x, e) ↦ rw (e, handle_post_todo) (nothing refl)
    | inl (req, e) ↦ elim (Checked-cases (normalize_todo_text req.text)) [
      | inr (x, f) ↦ rw (e, handle_post_todo) (rw f (nothing refl))
      | inl (text, f) ↦ elim (Bool-cases (valid_todo_status req.status)) [
        | inr g ↦ rw (e, handle_post_todo) (rw f (rw g (nothing refl)))
        | inl g ↦
            rw (e, handle_post_todo)
              (rw f (
                rw g (
                  added text req.status (normalize_todo_text_lem req.text text f)
                    (valid_todo_status_lem req.status g) (create_todo-store text req.status))))
      ]
    ]
  ]

  patch-TodoEffect : TodoEffect env user s (handle_patch_todo json env r user s).0
  unfolding handle_patch_todo
  patch-TodoEffect = elim (Checked-cases (path_id r "id")) [
    | inr (x, e) ↦ rw (e, handle_patch_todo) (nothing refl)
    | inl (id, e) ↦ elim (Checked-cases (json_body json.patch_todo_json r)) [
      | inr (x, f) ↦ rw (e, handle_patch_todo) (rw f (nothing refl))
      | inl (req, f) ↦ elim (Checked-cases (todo_patch req)) [
        | inr (x, g) ↦ rw (e, handle_patch_todo) (rw f (rw g (nothing refl)))
        | inl (p, g) ↦
            rw (e, handle_patch_todo)
              (rw f (rw g (patched id req.version p (todo_patch_lem req p g) refl)))
      ]
    ]
  ]

  delete-TodoEffect : TodoEffect env user s (handle_delete_todo json env r user s).0
  unfolding handle_delete_todo
  delete-TodoEffect = elim (Checked-cases (path_id r "id")) [
    | inr (x, e) ↦ rw (e, handle_delete_todo) (nothing refl)
    | inl (id, e) ↦ elim (Checked-cases (json_body json.delete_todo_json r)) [
      | inr (x, f) ↦ rw (e, handle_delete_todo) (rw f (nothing refl))
      | inl (req, f) ↦ elim (Bool-cases (leb_ℤ req.version (pos 0))) [
        | inl g ↦ rw (e, handle_delete_todo) (rw f (rw g (nothing refl)))
        | inr g ↦ rw (e, handle_delete_todo) (rw f (rw g (removed id req.version refl)))
      ]
    ]
  ]

  pub route_todo-TodoEffect :
      (route : TodoRoute) → TodoEffect env user s (route_todo json env route r user s).0
  unfolding route_todo
  route_todo-TodoEffect list = nothing refl
  route_todo-TodoEffect post = post-TodoEffect
  route_todo-TodoEffect get = nothing refl
  route_todo-TodoEffect patch = patch-TodoEffect
  route_todo-TodoEffect delete = delete-TodoEffect
