-- ===== src/Service/Todos.antt =====
-- internal/service/todos.go
use tinypanel_hub.Prelude.{String, List, Option, ℤ}
use tinypanel_hub.Domain.{Todo, TodoPatch}
use tinypanel_hub.Store.State.{Error, Env}
use tinypanel_hub.Store.Todos.{TodoUpdate, TodoDelete}
use tinypanel_hub.Service.Interface.{TodoStore}

module _ {S : Type 0} (store : TodoStore S) where
  abbrev pub list : String → S → List Todo
  list owner_id s = store.todos owner_id s

  abbrev pub get : String → ℤ → S → Option Todo
  get owner_id id s = store.todo owner_id id s

  abbrev pub create : Env → String → String → ℤ → S → S × Todo × Option Error
  create env owner_id text status s = store.add_todo env owner_id text status s

  abbrev pub update : Env → String → ℤ → ℤ → TodoPatch → S → S × TodoUpdate
  update env owner_id id version patch s = store.update_todo env owner_id id version patch s

  abbrev pub delete : Env → String → ℤ → ℤ → S → S × TodoDelete
  delete env owner_id id version s = store.delete_todo env owner_id id version s
