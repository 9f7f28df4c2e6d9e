-- ===== src/Store/File.antt =====
-- internal/store/state.go: loading, saving and normalising the state file.
pub mod Atomic
pub mod Identifiers
use Prim.Native.String
use tinypanel_hub.Prelude.{
  String, List, [], ◌∷◌, map, Option, none, some, ℤ, pos, if◌then◌else◌, ◌==◌, eq_string, eq_int,
  leb_ℤ, succ_int64, length, ◌≡◌, arith,
}
use tinypanel_hub.Domain.{
  Weather, Message, Todo, Time, message_priority_normal, message_status_pending,
}
use tinypanel_hub.Store.State.{
  Error, Result, ok, err, StateData, Files, put_file, FileStore, Codec, SaveFaults,
}

-- `defaultWeather` of store.go, at the time `now`.
unfoldable pub default_weather : Time → Weather
default_weather now = record {
  location = "unknown";
  condition = "unknown";
  icon = "";
  temperature = 0;
  humidity = 0;
  updated_at = now;
  hourly = [];
  daily = [];
}

-- The data of `newStateFile`.
unfoldable pub new_state_data : Time → StateData
new_state_data now = record {
  next_message_id = pos 1;
  next_todo_id = pos 1;
  weather = default_weather now;
  users = [];
  devices = [];
  messages = [];
  todos = [];
}

abbrev pub next_after : ℤ → ℤ → ℤ
next_after next id = if leb_ℤ next id then succ_int64 id else next

-- `nextTodoID` of todos.go: the loop with its variable `next`.
unfoldable pub next_todo_id_from : ℤ → List Todo → ℤ
next_todo_id_from next [] = next
next_todo_id_from next (item ∷ items) = next_todo_id_from (next_after next item.id) items

unfoldable pub next_todo_id : List Todo → ℤ
unfolding next_todo_id_from
next_todo_id items = next_todo_id_from (pos 1) items

-- The body of the last loop of `normalize`.
unfoldable pub normalize_message : Message → Message
normalize_message m = record m {
  priority = if m.priority == "" then message_priority_normal else m.priority;
  status = if m.status == "" then message_status_pending else m.status;
}

unfoldable pub normalize : Time → StateData → StateData
normalize now d = record d {
  next_message_id =
      if d.next_message_id == pos 0
      then succ_int64 (pos (length d.messages))
      else d.next_message_id;
  next_todo_id = if d.next_todo_id == pos 0 then next_todo_id d.todos else d.next_todo_id;
  weather = if d.weather.location == "" then default_weather now else d.weather;
  messages = map normalize_message d.messages;
}

-- `os.ReadFile`: no such file, another error, or the text.
pub data Read : Type 0 where
  not_exist : Read
  failed : Error → Read
  text : String → Read

unfoldable pub read_file : Option Error → Files → String → Read
read_file (some e) files path = failed e
read_file none files path = elim (files path) [ none ↦ not_exist | some s ↦ text s ]

unfoldable pub normalized : Time → Result StateData → Result StateData
normalized now (ok d) = ok (normalize now d)
normalized now (err e) = err e

-- `stateFile.load` over the data `d` of a new state file.
unfoldable pub load : Codec → Time → Read → StateData → Result StateData
unfolding normalized
load c now not_exist d = ok d
load c now (failed e) d = err e
load c now (text b) d = if b == "" then ok d else normalized now (c.decode_state d b)

abbrev pub tmp_path : String → String
tmp_path path = String.◌++◌ path ".tmp"

abbrev pub set_files : Files → FileStore → FileStore
set_files files s = record s { files = files }

-- `os.Rename(tmp, path)`
abbrev pub rename_file : String → String → Files → Files
rename_file tmp path files = put_file tmp none (put_file path (files tmp) files)

-- The last two steps of `save`: the write of the temporary file and the rename.
unfoldable pub write_and_rename : SaveFaults → String → FileStore → FileStore × Option Error
write_and_rename f b s =
    let tmp = tmp_path s.state_path in
    let written = put_file tmp (some b) s.files in
    elim f.write_fails [
      | some (e, left) ↦ (set_files (put_file tmp left s.files) s, some e)
      | none ↦ elim f.rename_fails [
        | some e ↦ (set_files written s, some e)
        | none ↦ (set_files (rename_file tmp s.state_path written) s, none)
      ]
    ]

-- `stateFile.save`
unfoldable pub save : Codec → SaveFaults → FileStore → FileStore × Option Error
unfolding write_and_rename
save c f s = elim f.mkdir_fails [
  | some e ↦ (s, some e)
  | none ↦ elim (c.encode_state s.contents) [ err e ↦ (s, some e) | ok b ↦ write_and_rename f b s ]
]

-- `save` changes the files only.
pub save-contents :
    (c : Codec) (f : SaveFaults) (s : FileStore) → (save c f s).0.contents ≡ s.contents
unfolding save
save-contents c f s = ground arith
