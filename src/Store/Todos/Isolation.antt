-- ===== src/Store/Todos/Isolation.antt =====
-- The operations of internal/store/todos.go read and change the todos of one owner only, and one
-- todo at a time.
use tinypanel_hub.Prelude.{
  String, List, [], ◌∷◌, none, some, ℤ, true, false, ◌==◌, eq_string, eq_int, filter, find?,
  remove_first, ◌≡◌, refl, ◌∙◌, arith, Pairwise, All-mono, find?-test, find?_of_All,
  find?-append_none, Bool-cases, Option-cases, ==_of_ne, eq_iff, eq_refl, ◌≢◌, inl, inr, ◌<ℤ◌,
  eq_ℤ_iff, eq_ℤ_refl, int64_max, ne_of_lt_ℤ, filter-append, filter-update_first_ne,
  filter-remove_first_ne,
}
use tinypanel_hub.Domain.{Todo, TodoPatch}
use tinypanel_hub.Store.State.{FileStore, Env}
use tinypanel_hub.Store.Commit.{commit-contents}
use mathlib.Core.List.{append-nil}
use tinypanel_hub.Store.Todos.{
  is_todo, todo, todos, patch_todo, update_todo, delete_todo, add_todo, new_todo, add_todo_data,
  replace_todo, remove_todo,
}
use tinypanel_hub.Store.Todos.Invariant.{IsTodoList, add_todo_data-IsTodoList}
use tinypanel_hub.Store.Todos.Versions.{
  update_todo_current, update_todo_stale, delete_todo_current, delete_todo_stale, todo_missing,
}

owner_test :
    (owner_id other : String) (id : ℤ) (t : Todo)
    → owner_id ≢ other
    → is_todo owner_id id t ≡ true
    → (t.owner_id == other) ≡ false
owner_test owner_id other id t ne h =
    ground (arith, eq_iff t.owner_id owner_id, eq_iff t.owner_id other)

module _ (env : Env) (owner_id other : String) (id version : ℤ) (patch : TodoPatch) (s : FileStore)
    (ne : owner_id ≢ other) where
  module _ {t : Todo} (found : todo owner_id id s ≡ some t) where
    replace_todo-todos :
        filter
          (λ u. u.owner_id == other)
          (replace_todo owner_id id (patch_todo env.now patch t) s.contents).todos
        ≡ todos other s
    unfolding todo todos patch_todo
    replace_todo-todos =
        let hidden =
          owner_test owner_id other id t ne
            (find?-test (is_todo owner_id id) s.contents.todos t found) in
        filter-update_first_ne (is_todo owner_id id) (λ u. u.owner_id == other) s.contents.todos t _
          found hidden hidden

    remove_todo-todos :
        filter (λ u. u.owner_id == other) (remove_todo owner_id id s.contents).todos ≡ todos other s
    unfolding todo todos
    remove_todo-todos =
        filter-remove_first_ne (is_todo owner_id id) (λ u. u.owner_id == other) s.contents.todos t
          found
          (owner_test owner_id other id t ne
            (find?-test (is_todo owner_id id) s.contents.todos t found))

  update_todo-todos : todos other (update_todo env owner_id id version patch s).0 ≡ todos other s
  unfolding todos
  update_todo-todos = elim (Option-cases (todo owner_id id s)) [
    | inl e ↦ rw ((todo_missing env owner_id id version patch s e).0)
    | inr (t, e) ↦ elim (Bool-cases (t.version == version)) [
      | inl same ↦ rw (← (eq_ℤ_iff t.version version).0 same) (
          rw (update_todo_current env owner_id id patch s e)
            (rw (commit-contents env _ s) (replace_todo-todos e)))
      | inr other_version ↦ rw (
          update_todo_stale env owner_id id patch s e version
            (λ q. ground (arith, eq_ℤ_iff t.version version)))
    ]
  ]

  delete_todo-todos : todos other (delete_todo env owner_id id version s).0 ≡ todos other s
  unfolding todos
  delete_todo-todos = elim (Option-cases (todo owner_id id s)) [
    | inl e ↦ rw ((todo_missing env owner_id id version patch s e).1)
    | inr (t, e) ↦ elim (Bool-cases (t.version == version)) [
      | inl same ↦ rw (← (eq_ℤ_iff t.version version).0 same) (
          rw (delete_todo_current env owner_id id patch s e)
            (rw (commit-contents env _ s) (remove_todo-todos e)))
      | inr other_version ↦ rw (
          delete_todo_stale env owner_id id patch s e version
            (λ q. ground (arith, eq_ℤ_iff t.version version)))
    ]
  ]

add_todo-todos :
    (env : Env) (owner_id other text : String) (status : ℤ) (s : FileStore)
    → owner_id ≢ other
    → todos other (add_todo env owner_id text status s).0 ≡ todos other s
unfolding add_todo todos add_todo_data new_todo
add_todo-todos env owner_id other text status s ne = rw (commit-contents env _ s) (
    rw (filter-append (λ (u : Todo). u.owner_id == other) s.contents.todos _)
      (rw (==_of_ne owner_id other ne) (append-nil _)))

-- Adding, updating and deleting todos of one owner, on every branch, leaves the list that any other
-- owner reads as it was.
pub todos_isolated :
    (env : Env) (owner_id other : String) (id version : ℤ) (patch : TodoPatch) (text : String)
    (status : ℤ) (s : FileStore)
    → owner_id ≢ other
    → (todos other (add_todo env owner_id text status s).0 ≡ todos other s)
      × (todos other (update_todo env owner_id id version patch s).0 ≡ todos other s)
      × (todos other (delete_todo env owner_id id version s).0 ≡ todos other s)
todos_isolated env owner_id other id version patch text status s ne = (
  add_todo-todos env owner_id other text status s ne,
  update_todo-todos env owner_id other id version patch s ne,
  delete_todo-todos env owner_id other id version patch s ne,
)

pub find?-remove_first_unique :
    (owner_id : String) (id : ℤ) (ts : List Todo)
    → Pairwise (λ (a b : Todo). a.id <ℤ b.id) ts
    → find? (is_todo owner_id id) (remove_first (is_todo owner_id id) ts) ≡ none
find?-remove_first_unique owner_id id [] h = refl
find?-remove_first_unique owner_id id (t ∷ ts) (q, h) = elim (Bool-cases (is_todo owner_id id t)) [
  | inl e ↦ rw e (
      find?_of_All (is_todo owner_id id) ts (
        All-mono (λ (u : Todo). t.id <ℤ u.id) (λ u. is_todo owner_id id u ≡ false) ts
          (λ u l.
            ground (
              arith,
              eq_ℤ_iff t.id id,
              eq_ℤ_iff u.id id,
              ne_of_lt_ℤ t.id u.id l,
              eq_ℤ_iff t.id u.id,
            ))
          q))
  | inr e ↦ rw (e, find?-remove_first_unique owner_id id ts h) (rw e)
]

-- The fresh identifier is no todo's.
pub fresh_todo :
    (owner_id : String) (s : FileStore)
    → IsTodoList s.contents.next_todo_id s.contents.todos
    → todo owner_id s.contents.next_todo_id s ≡ none
unfolding todo
fresh_todo owner_id s h =
    let next = s.contents.next_todo_id in
    find?_of_All (is_todo owner_id next) s.contents.todos (
      All-mono (λ (t : Todo). t.id <ℤ next) (λ t. is_todo owner_id next t ≡ false) s.contents.todos
        (λ t l. rw (ne_of_lt_ℤ t.id next l)) h.below)

pub add_todo-todo :
    (env : Env) (owner_id text : String) (status : ℤ) (s : FileStore)
    → IsTodoList s.contents.next_todo_id s.contents.todos
    → let (s', t, e) = add_todo env owner_id text status s in todo owner_id t.id s' ≡ some t
unfolding add_todo todo add_todo_data new_todo
add_todo-todo env owner_id text status s h = rw (commit-contents env _ s) (
    find?-append_none (is_todo owner_id s.contents.next_todo_id) s.contents.todos _
      (fresh_todo owner_id s h)
    ∙ rw (eq_ℤ_refl s.contents.next_todo_id, eq_refl owner_id) refl)

pub delete_todo-todo :
    (env : Env) (owner_id : String) (id : ℤ) (patch : TodoPatch) (s : FileStore) {t : Todo}
    → IsTodoList s.contents.next_todo_id s.contents.todos
    → todo owner_id id s ≡ some t
    → todo owner_id id (delete_todo env owner_id id t.version s).0 ≡ none
unfolding todo
delete_todo-todo env owner_id id patch s h found =
    rw (delete_todo_current env owner_id id patch s found) (
      rw (commit-contents env _ s)
        (find?-remove_first_unique owner_id id s.contents.todos h.increasing))

add_todo-IsTodoList :
    (env : Env) (owner_id text : String) (status : ℤ) (s : FileStore)
    → IsTodoList s.contents.next_todo_id s.contents.todos
    → s.contents.next_todo_id <ℤ int64_max
    → let d = (add_todo env owner_id text status s).0.contents in IsTodoList d.next_todo_id d.todos
unfolding add_todo add_todo_data
add_todo-IsTodoList env owner_id text status s h room =
    rw (commit-contents env _ s)
      (add_todo_data-IsTodoList env.now owner_id text status s.contents room h)

-- A todo that was added can be read back by its owner, under the identifier that it was given, and
-- after a deletion with its version it cannot be found. This is of a list with increasing
-- identifiers below the next one, which is not the largest int64.
pub todo_add_delete :
    (env env' : Env) (owner_id text : String) (status : ℤ) (s : FileStore)
    → IsTodoList s.contents.next_todo_id s.contents.todos
    → s.contents.next_todo_id <ℤ int64_max
    → let (s', t, e) = add_todo env owner_id text status s in
      (todo owner_id t.id s' ≡ some t)
      × (todo owner_id t.id (delete_todo env' owner_id t.id t.version s').0 ≡ none)
todo_add_delete env env' owner_id text status s h room =
    let added = add_todo-todo env owner_id text status s h in
    (
      added,
      delete_todo-todo env' owner_id _ (record { text = none; status = none }) _
          (add_todo-IsTodoList env owner_id text status s h room) added,
    )
