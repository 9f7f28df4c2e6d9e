-- ===== src/Store/Open/Restart.antt =====
-- What a restart finds after a commit (internal/store/state.go and store.go).
use tinypanel_hub.Prelude.{
  String, List, [], ◌∷◌, map, none, some, ℤ, pos, false, eq_string, eq_int, ◌≡◌, refl, ap, arith,
  All, ==_of_ne, ◌≢◌, eq_ℤ, eq_ℤ_iff,
}
use tinypanel_hub.Domain.{Message, Telemetry, Time}
use tinypanel_hub.Store.State.{ok, StateData, Files, FileStore, Env}
use tinypanel_hub.Store.Commit.{commit, set_contents}
use tinypanel_hub.Store.State.{Codec}
use tinypanel_hub.Store.File.{new_state_data, normalize, normalize_message, load, read_file}
use tinypanel_hub.Store.File.Atomic.{save-SaveIsAtomic}
use tinypanel_hub.Store.TelemetryLog.{load_recent}
use tinypanel_hub.Store.Telemetry.{max_telemetry}
use tinypanel_hub.Store.Open.{open_files}

-- What encoding/json promises of the state `d`: its text is not empty, and unmarshalling that into
-- the data of a new state file gives `d` back.
pub record IsCodec (c : Codec) (d : StateData) : Type 0 where
  pub state_text : (b : String) → c.encode_state d ≡ ok b → b ≢ ""
  pub state_back :
      (b : String) (now : Time)
      → c.encode_state d ≡ ok b
      → c.decode_state (new_state_data now) b ≡ ok d

abbrev pub IsNormalMessage : Message → Type 0
IsNormalMessage m = (m.priority ≢ "") × (m.status ≢ "")

-- A state that `normalize` has nothing to fill in.
pub record IsNormal (d : StateData) : Type 0 where
  pub message_id : d.next_message_id ≢ pos 0
  pub todo_id : d.next_todo_id ≢ pos 0
  pub location : d.weather.location ≢ ""
  pub messages : All IsNormalMessage d.messages

normalize_messages : (ms : List Message) → All IsNormalMessage ms → map normalize_message ms ≡ ms
unfolding normalize_message
normalize_messages [] h = refl
normalize_messages (m ∷ ms) ((priority, status), h) =
    rw (==_of_ne _ _ priority, ==_of_ne _ _ status, normalize_messages ms h)

ne_test : (a b : ℤ) → a ≢ b → eq_ℤ a b ≡ false
ne_test a b h = ground (arith, eq_ℤ_iff a b)

normalize_of_IsNormal : (now : Time) (d : StateData) → IsNormal d → normalize now d ≡ d
unfolding normalize
normalize_of_IsNormal now d h = rw (
  ne_test _ _ h.message_id,
  ne_test _ _ h.todo_id,
  ==_of_ne _ _ h.location,
  normalize_messages d.messages h.messages,
)

load_saved :
    (c : Codec) (now : Time) (files : Files) (path b : String) (d0 d : StateData)
    → files path ≡ some b
    → b ≢ ""
    → c.decode_state d0 b ≡ ok d
    → IsNormal d
    → load c now (read_file none files path) d0 ≡ ok d
unfolding load read_file
load_saved c now files path b d0 d file full back normal =
    rw (file, read_file)
      (rw (==_of_ne _ _ full) (rw back (ap ok (normalize_of_IsNormal now d normal))))

-- A store that is opened on the files that a commit has left, where the commit reported no error
-- and the telemetry log can be read, has the data of the commit. This is of data with nothing to
-- normalise and of paths that are not empty.
pub commit-open_files :
    (env env' : Env) (d : StateData) (s : FileStore) (items : List Telemetry)
    → IsCodec env.codec d
    → env'.codec ≡ env.codec
    → IsNormal d
    → s.state_path ≢ ""
    → s.telemetry_path ≢ ""
    → (commit env d s).1 ≡ none
    → (let s' = (commit env d s).0 in
        load_recent env'.codec env'.scan_fails s'.files s.telemetry_path max_telemetry ≡ ok items)
    → let s' = (commit env d s).0 in
      (s'' : FileStore) × (open_files env' none s.state_path s.telemetry_path s'.files ≡ ok s'')
      × (s''.contents ≡ d)
unfolding open_files commit
commit-open_files env env' d s items law same normal p q done log =
    let (b, enc, file) =
      (save-SaveIsAtomic env.codec env.save_faults (set_contents d s)).saved done in
    let loaded =
      load_saved env'.codec env'.now (commit env d s).0.files s.state_path b
        (new_state_data env'.now) d file (law.state_text b enc)
        (rw same (law.state_back b env'.now enc)) normal in
    rw (==_of_ne _ _ p, ==_of_ne _ _ q) (rw (loaded, open_files) (rw log (_, refl, refl)))
