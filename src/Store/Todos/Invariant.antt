-- ===== src/Store/Todos/Invariant.antt =====
-- The invariant of the todos of internal/store/todos.go.
use tinypanel_hub.Prelude.{
  String, List, some, ℤ, pos, eq_string, eq_int, succ_int64, find?, ◌≡◌, arith, All, Pairwise,
  All-append, All-remove_first, All-mono, Pairwise-append, Pairwise-remove_first, All-update_first,
  All-update_first_at, Pairwise-update_first, ◌≤ℤ◌, ◌<ℤ◌, int64_max, succ_int64_parts,
  lt-succ_int64,
}
use tinypanel_hub.Domain.{Todo, Time}
use tinypanel_hub.Store.State.{StateData}
use tinypanel_hub.Store.Todos.{is_todo, new_todo, add_todo_data, replace_todo, remove_todo}

-- Increasing identifiers below the next one, and versions of one or more.
pub record IsTodoList (next : ℤ) (ts : List Todo) : Type 0 where
  pub increasing : Pairwise (λ (a b : Todo). a.id <ℤ b.id) ts
  pub below : All (λ (t : Todo). t.id <ℤ next) ts
  pub versions : All (λ (t : Todo). pos 1 ≤ℤ t.version) ts

pub add_todo_data-IsTodoList :
    (now : Time) (owner_id text : String) (status : ℤ) (d : StateData)
    → d.next_todo_id <ℤ int64_max
    → IsTodoList d.next_todo_id d.todos
    → IsTodoList (succ_int64 d.next_todo_id) (add_todo_data now owner_id text status d).todos
unfolding add_todo_data new_todo
add_todo_data-IsTodoList now owner_id text status d room h = record {
  increasing = Pairwise-append _ d.todos _ h.increasing h.below;
  below =
      All-append _ d.todos _
        (All-mono (λ (t : Todo). t.id <ℤ d.next_todo_id)
          (λ (t : Todo). t.id <ℤ succ_int64 d.next_todo_id) d.todos
          (λ t q. omega (arith, succ_int64_parts d.next_todo_id room)) h.below)
        (lt-succ_int64 d.next_todo_id room, tt);
  versions = All-append _ d.todos _ h.versions (omega arith, tt);
}

-- Replacing a todo by one with its identifier.
pub replace_todo-IsTodoList :
    (owner_id : String) (id : ℤ) (t t' : Todo) (d : StateData)
    → find? (is_todo owner_id id) d.todos ≡ some t
    → t'.id ≡ t.id
    → pos 1 ≤ℤ t'.version
    → IsTodoList d.next_todo_id d.todos
    → IsTodoList d.next_todo_id (replace_todo owner_id id t' d).todos
replace_todo-IsTodoList owner_id id t t' d found same v h = record {
  increasing =
      Pairwise-update_first (is_todo owner_id id) (λ (a b : Todo). a.id <ℤ b.id) d.todos t t' found
        (λ y q. rw same q) (λ y q. rw same q) h.increasing;
  below = All-update_first_at (is_todo owner_id id) _ d.todos t t' found (λ q. rw same q) h.below;
  versions = All-update_first (is_todo owner_id id) _ d.todos t' h.versions v;
}

pub remove_todo-IsTodoList :
    (owner_id : String) (id : ℤ) (d : StateData)
    → IsTodoList d.next_todo_id d.todos
    → IsTodoList d.next_todo_id (remove_todo owner_id id d).todos
remove_todo-IsTodoList owner_id id d h = record {
  increasing = Pairwise-remove_first _ (is_todo owner_id id) d.todos h.increasing;
  below = All-remove_first _ (is_todo owner_id id) d.todos h.below;
  versions = All-remove_first _ (is_todo owner_id id) d.todos h.versions;
}
