-- ===== src/Store/Reachable/Todos.antt =====
-- The operations of internal/store/todos.go keep the invariant of the state.
use tinypanel_hub.Prelude.{
  ℕ, suc, ◌<◌, String, none, some, ℤ, pos, ◌==◌, eq_string, eq_int, succ_int64, ◌≡◌, refl, arith,
  All-append, All-remove_first, find?-All, All-update_first, Bool-cases, Option-cases, inl, inr,
  ◌≤ℤ◌, ◌<ℤ◌, eq_ℤ_iff, int64_max, succ_int64_parts,
}
use tinypanel_hub.Domain.{Todo, TodoPatch}
use tinypanel_hub.Store.State.{FileStore, Env}
use tinypanel_hub.Store.Commit.{commit-contents}
use tinypanel_hub.Store.Validity.{IsValid, max_steps, versions_later, todos-IsValid, later-IsValid}
use tinypanel_hub.Store.Todos.{
  todo, is_todo, new_todo, add_todo, add_todo_data, patch_todo, replace_todo, remove_todo,
  update_todo, delete_todo,
}
use tinypanel_hub.Store.Todos.Invariant.{
  add_todo_data-IsTodoList, replace_todo-IsTodoList, remove_todo-IsTodoList,
}
use tinypanel_hub.Store.Todos.Versions.{
  update_todo_current, update_todo_stale, delete_todo_current, delete_todo_stale, todo_missing,
}

pub succ_bound :
    (n : ℕ) (a : ℤ)
    → n < max_steps
    → a ≤ℤ pos (suc n)
    → (a <ℤ int64_max) × (succ_int64 a ≤ℤ pos (suc (suc n)))
succ_bound n a m h =
    let room : a <ℤ int64_max = omega arith in (room, omega (arith, succ_int64_parts a room))

module _ (n : ℕ) (early : n < max_steps) (env : Env) (owner_id : String) (s : FileStore)
    (h : IsValid n s.contents) where
  pub add_todo-IsValid :
      (text : String) (status : ℤ)
      → IsValid (suc n) (add_todo env owner_id text status s).0.contents
  unfolding add_todo add_todo_data new_todo
  add_todo-IsValid text status =
      let (room, bound) = succ_bound n s.contents.next_todo_id early h.todo_ids in
      rw (commit-contents env _ s) (
        todos-IsValid n s.contents _ _
          (add_todo_data-IsTodoList env.now owner_id text status s.contents room h.todos) bound
          (All-append _ s.contents.todos _ (versions_later n s.contents.todos h.versions)
            (omega arith, tt))
          h)

  module _ (id : ℤ) {t : Todo} (found : todo owner_id id s ≡ some t) where
    replaced-IsValid :
        (patch : TodoPatch)
        → IsValid (suc n) (replace_todo owner_id id (patch_todo env.now patch t) s.contents)
    unfolding todo patch_todo
    replaced-IsValid patch =
        let ts = s.contents.todos in
        let low =
          find?-All (is_todo owner_id id) (λ (x : Todo). pos 1 ≤ℤ x.version) ts t h.todos.versions
            found in
        let high =
          find?-All (is_todo owner_id id) (λ (x : Todo). x.version ≤ℤ pos (suc n)) ts t h.versions
            found in
        let (room, bound) = succ_bound n t.version early high in
        todos-IsValid n s.contents s.contents.next_todo_id _
          (replace_todo-IsTodoList owner_id id t _ s.contents found refl
            (omega (arith, succ_int64_parts t.version room, low)) h.todos)
          (omega (arith, h.todo_ids))
          (All-update_first (is_todo owner_id id) _ ts _ (versions_later n ts h.versions) bound) h

    removed-IsValid : IsValid (suc n) (remove_todo owner_id id s.contents)
    removed-IsValid =
        let ts = s.contents.todos in
        todos-IsValid n s.contents s.contents.next_todo_id _
          (remove_todo-IsTodoList owner_id id s.contents h.todos) (omega (arith, h.todo_ids))
          (All-remove_first _ (is_todo owner_id id) ts (versions_later n ts h.versions)) h

  pub update_todo-IsValid :
      (id version : ℤ) (patch : TodoPatch)
      → IsValid (suc n) (update_todo env owner_id id version patch s).0.contents
  update_todo-IsValid id version patch = elim (Option-cases (todo owner_id id s)) [
    | inl e ↦ rw ((todo_missing env owner_id id version patch s e).0) (later-IsValid n _ h)
    | inr (t, e) ↦ elim (Bool-cases (t.version == version)) [
      | inl same ↦ rw (← (eq_ℤ_iff t.version version).0 same) (
          rw (update_todo_current env owner_id id patch s e)
            (rw (commit-contents env _ s) (replaced-IsValid id e patch)))
      | inr other ↦
          rw
            (update_todo_stale env owner_id id patch s e version
              (λ q. ground (arith, eq_ℤ_iff t.version version)))
            (later-IsValid n _ h)
    ]
  ]

  pub delete_todo-IsValid :
      (id version : ℤ) → IsValid (suc n) (delete_todo env owner_id id version s).0.contents
  delete_todo-IsValid id version =
      let patch : TodoPatch = record { text = none; status = none } in
      elim (Option-cases (todo owner_id id s)) [
        | inl e ↦ rw ((todo_missing env owner_id id version patch s e).1) (later-IsValid n _ h)
        | inr (t, e) ↦ elim (Bool-cases (t.version == version)) [
          | inl same ↦ rw (← (eq_ℤ_iff t.version version).0 same) (
              rw (delete_todo_current env owner_id id patch s e)
                (rw (commit-contents env _ s) (removed-IsValid id e)))
          | inr other ↦
              rw
                (delete_todo_stale env owner_id id patch s e version
                  (λ q. ground (arith, eq_ℤ_iff t.version version)))
                (later-IsValid n _ h)
        ]
      ]
