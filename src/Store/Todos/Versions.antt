-- ===== src/Store/Todos/Versions.antt =====
-- The version check of `UpdateTodo` and `DeleteTodo` (internal/store/todos.go).
use tinypanel_hub.Prelude.{
  String, Option, none, some, ℤ, eq_string, eq_int, succ_int64, ◌≡◌, refl, ap, arith, find?-test,
  find?-update_first, ◌≢◌, ◌<ℤ◌, pos_part, neg_part, eq_ℤ_iff, eq_ℤ_refl, int64_max,
  succ_int64_parts,
}
use tinypanel_hub.Domain.{Todo, TodoPatch}
use tinypanel_hub.Store.State.{Error, FileStore, Env}
use tinypanel_hub.Store.Commit.{commit, commit-contents}
use tinypanel_hub.Store.Todos.{
  is_todo, todo, missing, conflict, swapped, TodoDelete, deleted, patch_todo, update_todo,
  delete_todo, replace_todo, remove_todo,
}

-- The outcome of `UpdateTodo` at a todo that is found.
module _ (env : Env) (owner_id : String) (id : ℤ) (patch : TodoPatch) (s : FileStore) {t : Todo}
    (found : todo owner_id id s ≡ some t) where
  pub update_todo_current :
      let t' = patch_todo env.now patch t in
      let c = commit env (replace_todo owner_id id t' s.contents) s in
      update_todo env owner_id id t.version patch s ≡ (c.0, swapped t' c.1)
  unfolding update_todo
  update_todo_current = rw (found, update_todo) (rw (eq_ℤ_refl t.version))

  -- An update that names another version than the current one changes nothing and returns the
  -- current todo.
  pub update_todo_stale :
      (version : ℤ)
      → t.version ≢ version
      → update_todo env owner_id id version patch s ≡ (s, conflict t)
  unfolding update_todo
  update_todo_stale version h = rw (found, update_todo) (ground (arith, eq_ℤ_iff t.version version))

  -- An update that names the current version stores the patched todo under the next version, and
  -- the todo can then be read back.
  pub update_todo_swaps :
      let t' = patch_todo env.now patch t in
      let (s', r) = update_todo env owner_id id t.version patch s in
      (todo owner_id id s' ≡ some t')
      × (t'.version ≡ succ_int64 t.version)
      × ((e : Option Error) × (r ≡ swapped t' e))
  unfolding todo patch_todo
  update_todo_swaps = rw update_todo_current (
    rw (commit-contents env _ s) (
        find?-update_first (is_todo owner_id id) s.contents.todos t _ found
          (find?-test (is_todo owner_id id) s.contents.todos t found)),
    refl,
    (_, refl),
  )

  pub delete_todo_current :
      let c = commit env (remove_todo owner_id id s.contents) s in
      delete_todo env owner_id id t.version s ≡ (c.0, deleted c.1)
  unfolding delete_todo
  delete_todo_current = rw (found, delete_todo) (rw (eq_ℤ_refl t.version))

  -- A deletion that names another version than the current one changes nothing.
  pub delete_todo_stale :
      (version : ℤ)
      → t.version ≢ version
      → delete_todo env owner_id id version s ≡ (s, TodoDelete.conflict)
  unfolding delete_todo
  delete_todo_stale version h = rw (found, delete_todo) (ground (arith, eq_ℤ_iff t.version version))

-- An unknown todo, or one of another owner, is missing for an update and for a deletion.
pub todo_missing :
    (env : Env) (owner_id : String) (id version : ℤ) (patch : TodoPatch) (s : FileStore)
    → todo owner_id id s ≡ none
    → (update_todo env owner_id id version patch s ≡ (s, missing))
      × (delete_todo env owner_id id version s ≡ (s, TodoDelete.missing))
unfolding update_todo delete_todo
todo_missing env owner_id id version patch s h = (rw (h, update_todo), rw (h, delete_todo))

succ_int64_ne : (a : ℤ) → a <ℤ int64_max → succ_int64 a ≢ a
succ_int64_ne a h e = absurd (omega (arith, succ_int64_parts a h, ap pos_part e, ap neg_part e))

-- Of two changes that name the same version only the first takes effect: after an update that
-- succeeded, another update or a deletion with the version it named changes nothing and reports a
-- conflict, the update with the todo as the first one left it. The version is below the largest
-- int64.
pub no_lost_update :
    (env env' : Env) (owner_id : String) (id : ℤ) (patch patch' : TodoPatch) (s : FileStore)
    {t : Todo}
    → todo owner_id id s ≡ some t
    → t.version <ℤ int64_max
    → let s' = (update_todo env owner_id id t.version patch s).0 in
      (update_todo env' owner_id id t.version patch' s'
        ≡ (s', conflict (patch_todo env.now patch t)))
      × (delete_todo env' owner_id id t.version s' ≡ (s', TodoDelete.conflict))
no_lost_update env env' owner_id id patch patch' s {t} found room =
    let s' = (update_todo env owner_id id t.version patch s).0 in
    let done = update_todo_swaps env owner_id id patch s found in
    let moved : (patch_todo env.now patch t).version ≢ t.version =
      rw (done.1) (succ_int64_ne t.version room) in
    (
      update_todo_stale env' owner_id id patch' s' done.0 t.version moved,
      delete_todo_stale env' owner_id id patch' s' done.0 t.version moved,
    )
