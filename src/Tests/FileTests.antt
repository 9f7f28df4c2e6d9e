-- ===== src/Tests/FileTests.antt =====
-- The files of internal/store, and its sequences of operations, at concrete inputs.
use tinypanel_hub.Prelude.{
  ℕ, suc, String, List, [], ◌∷◌, none, some, pos, eq_string, eq_int, drop, ◌≡◌, refl, ◌∙◌, arith,
  All, ne_of_==, ◌≢◌, inl, ◌≤ℤ◌, ◌<ℤ◌, eq_ℤ_iff,
}
use tinypanel_hub.Domain.{Message, Todo, TodoPatch, Telemetry}
use tinypanel_hub.Store.State.{ok, StateData, FileStore}
use tinypanel_hub.Store.Commit.{commit}
use tinypanel_hub.Store.File.{new_state_data, normalize}
use tinypanel_hub.Store.File.Identifiers.{normalize-next_todo_id, normalize-next_message_id}
use tinypanel_hub.Store.File.Atomic.{SaveIsAtomic, save-SaveIsAtomic}
use tinypanel_hub.Store.File.{save}
use tinypanel_hub.Store.Open.{open_files}
use tinypanel_hub.Store.Open.Identifiers.{open_files-next_telemetry_id}
use tinypanel_hub.Store.Open.Restart.{IsCodec, IsNormal, commit-open_files}
use tinypanel_hub.Store.TelemetryLog.{
  split_lines, scan_loop, parse_line, drop_cr, keep_recent, load_recent,
}
use tinypanel_hub.Store.File.{load, read_file, new_state_data, default_weather}
use tinypanel_hub.Store.Messages.{add_device_message}
use tinypanel_hub.Store.Todos.{add_todo, update_todo}
use tinypanel_hub.Store.Reachable.{here, next, add, patch, send}
use tinypanel_hub.Store.Validity.{IsValid}
use tinypanel_hub.Store.Reachable.Invariant.{Reach-IsValid}
use tinypanel_hub.Tests.Fixtures.{
  alice, bob, sample_data, sample_telemetry, codec, save_fine, env, store,
}

abbrev no_change : TodoPatch
no_change = record { text = none; status = some (pos 2) }

-- Files, restarts and sequences of operations.
save-SaveIsAtomic_example :
    let (s', e) = save codec save_fine store in SaveIsAtomic codec store s' e
save-SaveIsAtomic_example = save-SaveIsAtomic codec save_fine store

sample-IsCodec : IsCodec codec sample_data
sample-IsCodec = record {
  state_text = λ b e q. absurd (ne_of_== "state" "" refl (ok_text e ∙ q));
  state_back = λ b now e. refl;
}
  where
    ok_text : {b : String} → ok "state" ≡ ok b → "state" ≡ b
    ok_text e = cc

ne_zero : (n : ℕ) → pos (suc n) ≢ pos 0
ne_zero n e = ground (arith, eq_ℤ_iff (pos (suc n)) (pos 0))

sample-IsNormal : IsNormal sample_data
sample-IsNormal = record {
  message_id = ne_zero 3;
  todo_id = ne_zero 1;
  location = ne_of_== "unknown" "" refl;
  messages = (
    (ne_of_== "normal" "" refl, ne_of_== "acked" "" refl),
    (
      (ne_of_== "normal" "" refl, ne_of_== "pending" "" refl),
      ((ne_of_== "normal" "" refl, ne_of_== "pending" "" refl), tt),
    ),
  );
}

saved : (commit env sample_data store).1 ≡ none
unfolding commit save
saved = refl

log_read :
    (items : List Telemetry) × (load_recent codec none
        (commit env sample_data store).0.files
        "log.jsonl"
        (pos 500)
      ≡ ok items)
unfolding load_recent commit save
log_read = (_, refl)

commit-open_files_example :
    let s' = (commit env sample_data store).0 in
    (s'' : FileStore) × (open_files env none "state.json" "log.jsonl" s'.files ≡ ok s'')
    × (s''.contents ≡ sample_data)
commit-open_files_example =
    commit-open_files env env sample_data store log_read.0 sample-IsCodec refl sample-IsNormal
      (ne_of_== "state.json" "" refl) (ne_of_== "log.jsonl" "" refl) saved log_read.1

-- State files of an older version, without the counters.
abbrev old_data : StateData
old_data = record sample_data {
  next_todo_id = pos 0;
  next_message_id = pos 0;
  messages = drop 2 sample_data.messages;
}

normalize-next_todo_id_example :
    All (λ (t : Todo). t.id <ℤ (normalize 5 old_data).next_todo_id) (normalize 5 old_data).todos
normalize-next_todo_id_example = normalize-next_todo_id 5 old_data refl (omega arith, tt)

normalize-next_message_id_example :
    ¬ All
      (λ (m : Message). m.id <ℤ (normalize 5 old_data).next_message_id)
      (normalize 5 old_data).messages
normalize-next_message_id_example =
    normalize-next_message_id 5 old_data _ refl (inl refl) (omega arith) (omega arith)

log_items : load_recent codec none store.files "log.jsonl" (pos 500) ≡ ok (sample_telemetry ∷ [])
unfolding load_recent split_lines scan_loop parse_line drop_cr keep_recent
log_items = refl

opened : (s : FileStore) × (open_files env none "state.json" "log.jsonl" store.files ≡ ok s)
unfolding open_files load read_file load_recent split_lines scan_loop parse_line drop_cr keep_recent
    new_state_data default_weather
opened = (_, refl)

open_files-next_telemetry_id_example :
    (pos 1 ≤ℤ opened.0.next_telemetry_id)
    × All (λ (t : Telemetry). t.id <ℤ opened.0.next_telemetry_id) (sample_telemetry ∷ [])
open_files-next_telemetry_id_example =
    open_files-next_telemetry_id env none "state.json" "log.jsonl" store.files opened.0
      (sample_telemetry ∷ []) opened.1 log_items (omega arith, tt)

abbrev new_store : FileStore
new_store = record store { contents = new_state_data 1 }

abbrev run_1 : FileStore
run_1 = (add_todo env alice "water" (pos 0) new_store).0

abbrev run_2 : FileStore
run_2 = (add_device_message env alice "panel" bob "hello" "high" run_1).0

abbrev run_3 : FileStore
run_3 = (update_todo env alice (pos 1) (pos 1) no_change run_2).0

Reach-IsValid_example : IsValid 3 run_3.contents
Reach-IsValid_example = Reach-IsValid 1 new_store 3 run_3 refl (omega arith) (
    next
      (next (next here (add env alice "water" (pos 0) refl))
        (send env alice "panel" bob "hello" "high" refl))
      (patch env alice (pos 1) (pos 1) no_change refl))
