-- ===== src/Store/Todos.antt =====
-- internal/store/todos.go: todos with a version that guards each change.
pub mod Table
pub mod Invariant
pub mod Versions
pub mod Isolation
use tinypanel_hub.Prelude.{
  ◌+◌, String, List, [], ◌∷◌, ◌++◌, Option, none, some, ℤ, pos, Bool, ◌&&◌, if◌then◌else◌, ◌==◌,
  ◌!=◌, eq_string, eq_int, succ_int64, filter, find?, update_first, remove_first,
}
use tinypanel_hub.Domain.{Todo, TodoPatch, Time}
use tinypanel_hub.Store.State.{Error, StateData, FileStore, Env}
use tinypanel_hub.Store.Commit.{commit}

-- The test of `todoIndex`; the loop takes the first todo that passes it.
abbrev pub is_todo : String → ℤ → Todo → Bool
is_todo owner_id id t = t.id == id && t.owner_id == owner_id

-- `ownerTodosLocked`, which `Todos` and `Snapshot` return.
unfoldable pub todos : String → FileStore → List Todo
todos owner_id s = filter (λ t. t.owner_id == owner_id) s.contents.todos

unfoldable pub todo : String → ℤ → FileStore → Option Todo
todo owner_id id s = find? (is_todo owner_id id) s.contents.todos

-- The todo that `AddTodo` builds.
unfoldable pub new_todo : Time → ℤ → String → String → ℤ → Todo
new_todo now id owner_id text status = record {
  id = id;
  owner_id = owner_id;
  text = text;
  status = status;
  version = pos 1;
  created_at = now;
  updated_at = now;
}

unfoldable pub add_todo_data : Time → String → String → ℤ → StateData → StateData
add_todo_data now owner_id text status d = record d {
  next_todo_id = succ_int64 d.next_todo_id;
  todos = d.todos ++ new_todo now d.next_todo_id owner_id text status ∷ [];
}

unfoldable pub add_todo : Env → String → String → ℤ → FileStore → FileStore × Todo × Option Error
add_todo env owner_id text status s =
    let t = new_todo env.now s.contents.next_todo_id owner_id text status in
    let (s', e) = commit env (add_todo_data env.now owner_id text status s.contents) s in (s', t, e)

abbrev pub or_else : {A : Type 0} → Option A → A → A
or_else none a = a
or_else (some b) a = b

-- The changes of `UpdateTodo` to the copy of the todo.
unfoldable pub patch_todo : Time → TodoPatch → Todo → Todo
patch_todo now patch t = record t {
  text = or_else patch.text t.text;
  status = or_else patch.status t.status;
  version = succ_int64 t.version;
  updated_at = now;
}

-- The results `found`, `swapped` and the error of `UpdateTodo`.
pub data TodoUpdate : Type 0 where
  missing : TodoUpdate
  conflict : Todo → TodoUpdate
  swapped : Todo → Option Error → TodoUpdate

abbrev pub replace_todo : String → ℤ → Todo → StateData → StateData
replace_todo owner_id id t d = record d {
  todos = update_first (is_todo owner_id id) (λ _. t) d.todos;
}

unfoldable pub update_todo : Env → String → ℤ → ℤ → TodoPatch → FileStore → FileStore × TodoUpdate
update_todo env owner_id id version patch s = elim (todo owner_id id s) [
  | none ↦ (s, missing)
  | some t ↦
      if t.version != version
      then (s, conflict t)
      else (let t' = patch_todo env.now patch t in
          let (s', e) = commit env (replace_todo owner_id id t' s.contents) s in (s', swapped t' e))
]

-- The results `found`, `swapped` and the error of `DeleteTodo`.
pub data TodoDelete : Type 0 where
  missing : TodoDelete
  conflict : TodoDelete
  deleted : Option Error → TodoDelete

abbrev pub remove_todo : String → ℤ → StateData → StateData
remove_todo owner_id id d = record d { todos = remove_first (is_todo owner_id id) d.todos }

unfoldable pub delete_todo : Env → String → ℤ → ℤ → FileStore → FileStore × TodoDelete
delete_todo env owner_id id version s = elim (todo owner_id id s) [
  | none ↦ (s, TodoDelete.missing)
  | some t ↦
      if t.version != version
      then (s, TodoDelete.conflict)
      else (let (s', e) = commit env (remove_todo owner_id id s.contents) s in (s', deleted e))
]
