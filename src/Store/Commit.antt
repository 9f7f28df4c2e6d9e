-- ===== src/Store/Commit.antt =====
-- The end of the methods of internal/store that change the state: new data, then `s.state.save()`.
use tinypanel_hub.Prelude.{Option, eq_string, eq_int, ◌≡◌}
use tinypanel_hub.Store.State.{Error, StateData, FileStore, Env}
use tinypanel_hub.Store.File.{save, save-contents}

abbrev pub set_contents : StateData → FileStore → FileStore
set_contents d s = record s { contents = d }

-- The assignment to the data, and the save.
unfoldable pub commit : Env → StateData → FileStore → FileStore × Option Error
commit env d s = save env.codec env.save_faults (set_contents d s)

-- In memory the new data stand after a commit, whether or not the save succeeded.
pub commit-contents : (env : Env) (d : StateData) (s : FileStore) → (commit env d s).0.contents ≡ d
unfolding commit
commit-contents env d s = save-contents env.codec env.save_faults (set_contents d s)
