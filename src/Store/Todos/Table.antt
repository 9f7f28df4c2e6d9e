-- ===== src/Store/Todos/Table.antt =====
-- internal/store/todos.go as a table of todos by owner and identifier.
use tinypanel_hub.Prelude.{
  eq_ℤ_iff, eq_ℤ_refl, find?-test, find?-update_first_ne, find?-remove_first_ne, find?-append_none,
  find?-append_some,
}
use tinypanel_hub.Store.Commit.{commit-contents}
use tinypanel_hub.Store.Todos.{
  is_todo, todo, new_todo, add_todo_data, add_todo, patch_todo, update_todo, delete_todo,
}
use tinypanel_hub.Store.Todos.Invariant.{IsTodoList}
use tinypanel_hub.Store.Todos.Versions.{
  update_todo_current, update_todo_stale, update_todo_swaps, delete_todo_current, delete_todo_stale,
  todo_missing,
}
use tinypanel_hub.Store.Todos.Isolation.{add_todo-todo, fresh_todo, delete_todo-todo}
use tinypanel_hub.Prelude.{
  String, List, [], ◌∷◌, ◌++◌, Option, none, some, ℤ, Bool, true, false, ◌&&◌, if◌then◌else◌, ◌==◌,
  eq_string, eq_int, eq_nat, find?, ◌≡◌, refl, sym, ◌∙◌, arith, Bool-cases, Option-cases, eq_iff,
  inl, inr, find?-test,
}
use tinypanel_hub.Domain.{Todo, TodoPatch, Time}
use tinypanel_hub.Store.State.{FileStore, Env}

abbrev pub Table : Type 0
Table = String → ℤ → Option Todo

-- What an owner finds under an identifier.
abbrev pub table : FileStore → Table
table s owner_id id = todo owner_id id s

abbrev pub set_cell : String → ℤ → Option Todo → Table → Table
set_cell owner_id id cell m o i = if id == i && owner_id == o then cell else m o i

-- A compare-and-swap on a cell
abbrev pub updated_cell : Time → ℤ → TodoPatch → Option Todo → Option Todo
updated_cell now version p none = none
updated_cell now version p (some t) = some (if t.version == version then patch_todo now p t else t)

abbrev pub deleted_cell : ℤ → Option Todo → Option Todo
deleted_cell version none = none
deleted_cell version (some t) = if t.version == version then none else some t

same_cell :
    (id i : ℤ) (owner_id o : String) → (id == i && owner_id == o) ≡ true → (id ≡ i) × (owner_id ≡ o)
same_cell id i owner_id o h = (ground (arith, eq_ℤ_iff id i), ground (arith, eq_iff owner_id o))

-- A todo answers to its own identifier and owner.
own_cell :
    (owner_id : String) (id : ℤ) (t : Todo) (o : String) (i : ℤ)
    → is_todo owner_id id t ≡ true
    → is_todo o i t ≡ (id == i && owner_id == o)
own_cell owner_id id t o i h =
    let (p, q) = same_cell t.id id t.owner_id owner_id h in rw (p, q) refl

-- Setting a cell to what it holds.
set_cell_same :
    (owner_id : String) (id : ℤ) (m : Table) → m ≡ set_cell owner_id id (m owner_id id) m
set_cell_same owner_id id m k o i = cell o i k
  where
    cell : (o : String) (i : ℤ) → m o i ≡ set_cell owner_id id (m owner_id id) m o i
    cell o i = elim (Bool-cases (id == i && owner_id == o)) [
      | inl e ↦ let (p, q) = same_cell id i owner_id o e in rw e (rw (p, q) refl)
      | inr e ↦ rw e refl
    ]

find?-append_other :
    {A : Type 0} (p : A → Bool) (xs : List A) (a : A)
    → p a ≡ false
    → find? p (xs ++ a ∷ []) ≡ find? p xs
find?-append_other p xs a h = elim (Option-cases (find? p xs)) [
  | inl e ↦ find?-append_none p xs a e ∙ (rw h (sym e))
  | inr (x, e) ↦ find?-append_some p xs (a ∷ []) x e ∙ sym e
]

module _ (env : Env) (owner_id : String) (s : FileStore)
    (h : IsTodoList s.contents.next_todo_id s.contents.todos) where
  add-cell :
      (text : String) (status : ℤ) (o : String) (i : ℤ)
      → let next = s.contents.next_todo_id in
        todo o i (add_todo env owner_id text status s).0
        ≡ set_cell owner_id next (some (new_todo env.now next owner_id text status)) (table s) o i
  unfolding add_todo todo add_todo_data new_todo
  add-cell text status o i = elim (Bool-cases (s.contents.next_todo_id == i && owner_id == o)) [
    | inl e ↦
        let (p, q) = same_cell s.contents.next_todo_id i owner_id o e in
        rw e (rw⁻¹ (p, q) (add_todo-todo env owner_id text status s h))
    | inr e ↦
        rw e (rw (commit-contents env _ s) (find?-append_other (is_todo o i) s.contents.todos _ e))
  ]

  module _ (id : ℤ) {t : Todo} (found : todo owner_id id s ≡ some t) where
    update-cell :
        (p : TodoPatch) (o : String) (i : ℤ)
        → todo o i (update_todo env owner_id id t.version p s).0
          ≡ set_cell owner_id id (some (patch_todo env.now p t)) (table s) o i
    unfolding todo patch_todo
    update-cell p o i = elim (Bool-cases (id == i && owner_id == o)) [
      | inl e ↦
          let (j, q) = same_cell id i owner_id o e in
          rw e (rw⁻¹ (j, q) ((update_todo_swaps env owner_id id p s found).0))
      | inr e ↦
          let k =
            own_cell owner_id id t o i (find?-test (is_todo owner_id id) s.contents.todos t found)
            ∙ e in
          rw e (
            rw (update_todo_current env owner_id id p s found) (
              rw (commit-contents env _ s) (
                find?-update_first_ne (is_todo owner_id id) (is_todo o i) s.contents.todos t _ found
                  k k)))
    ]

    delete-cell :
        (o : String) (i : ℤ)
        → todo o i (delete_todo env owner_id id t.version s).0
          ≡ set_cell owner_id id none (table s) o i
    unfolding todo
    delete-cell o i = elim (Bool-cases (id == i && owner_id == o)) [
      | inl e ↦
          let (j, q) = same_cell id i owner_id o e in
          rw e (
            rw⁻¹ (j, q)
              (delete_todo-todo env owner_id id (record { text = none; status = none }) s h found))
      | inr e ↦
          let k =
            own_cell owner_id id t o i (find?-test (is_todo owner_id id) s.contents.todos t found)
            ∙ e in
          let patch : TodoPatch = record { text = none; status = none } in
          rw e (
            rw (delete_todo_current env owner_id id patch s found) (
              rw (commit-contents env _ s) (
                find?-remove_first_ne (is_todo owner_id id) (is_todo o i) s.contents.todos t found
                  k)))
    ]

  module _ (id version : ℤ) (p : TodoPatch) where
    unchanged :
        (cell : Option Todo)
        → todo owner_id id s ≡ cell
        → table s ≡ set_cell owner_id id cell (table s)
    unchanged cell e = rw⁻¹ e (set_cell_same owner_id id (table s))

    update-table :
        table (update_todo env owner_id id version p s).0
        ≡ set_cell owner_id id (updated_cell env.now version p (table s owner_id id)) (table s)
    update-table = elim (Option-cases (todo owner_id id s)) [
      | inl e ↦ rw ((todo_missing env owner_id id version p s e).0) (rw e (unchanged none e))
      | inr (t, e) ↦ elim (Bool-cases (t.version == version)) [
        | inl same ↦
            rw (← (eq_ℤ_iff t.version version).0 same)
              (rw e (rw (eq_ℤ_refl t.version) (λ k o i. update-cell id e p o i k)))
        | inr other ↦
            rw
              (update_todo_stale env owner_id id p s e version
                (λ q. ground (arith, eq_ℤ_iff t.version version)))
              (rw e (rw other (unchanged (some t) e)))
      ]
    ]

    delete-table :
        table (delete_todo env owner_id id version s).0
        ≡ set_cell owner_id id (deleted_cell version (table s owner_id id)) (table s)
    delete-table = elim (Option-cases (todo owner_id id s)) [
      | inl e ↦ rw ((todo_missing env owner_id id version p s e).1) (rw e (unchanged none e))
      | inr (t, e) ↦ elim (Bool-cases (t.version == version)) [
        | inl same ↦
            rw (← (eq_ℤ_iff t.version version).0 same)
              (rw e (rw (eq_ℤ_refl t.version) (λ k o i. delete-cell id e o i k)))
        | inr other ↦
            rw
              (delete_todo_stale env owner_id id p s e version
                (λ q. ground (arith, eq_ℤ_iff t.version version)))
              (rw e (rw other (unchanged (some t) e)))
      ]
    ]

-- The list of todos is a table by owner and identifier: on a list with increasing identifiers below
-- the next one, adding fills the cell of the next identifier, which is empty for every owner,
-- updating is a compare-and-swap of the version in the owner's cell and deleting a
-- compare-and-clear, and no other cell changes, whether or not the save succeeds.
pub todos_table :
    (env : Env) (owner_id text : String) (status id version : ℤ) (p : TodoPatch) (s : FileStore)
    → IsTodoList s.contents.next_todo_id s.contents.todos
    → let next = s.contents.next_todo_id in
      ((o : String) → table s o next ≡ none)
      × (table (add_todo env owner_id text status s).0
          ≡ set_cell owner_id next (some (new_todo env.now next owner_id text status)) (table s))
      × (table (update_todo env owner_id id version p s).0
          ≡ set_cell owner_id id (updated_cell env.now version p (table s owner_id id)) (table s))
      × (table (delete_todo env owner_id id version s).0
          ≡ set_cell owner_id id (deleted_cell version (table s owner_id id)) (table s))
todos_table env owner_id text status id version p s h = (
  λ o. fresh_todo o s h,
  λ k o i. add-cell env owner_id s h text status o i k,
  update-table env owner_id s h id version p,
  delete-table env owner_id s h id version p,
)
