-- ===== src/Store/State.antt =====
-- The state of internal/store: `stateData` (state.go), `FileStore` (store.go) with its `stateFile`
-- and `telemetryLog` put in place, the files that it reads and writes, and what a call takes from
-- outside: the clock, random values, the outcome of each system call, and encoding/json.
use tinypanel_hub.Prelude.{
  String, List, Option, ℤ, if◌then◌else◌, ◌==◌, eq_string, eq_int, ◌≡◌, refl, ◌⊎◌, inl, inr,
}
use tinypanel_hub.Domain.{Weather, User, Device, Message, Todo, Telemetry, Time}

-- An error value: the two that store.go names, or one of the system or of encoding/json.
pub data Error : Type 0 where
  empty_store_path : Error
  invalid_device_secret : Error
  external : String → Error

-- `err.Error()`
abbrev pub error_text : Error → String
error_text empty_store_path = "store paths must not be empty"
error_text invalid_device_secret = "invalid device secret"
error_text (external s) = s

pub data Result (A : Type 0) : Type 0 where
  ok : A → Result A
  err : Error → Result A

pub Result-cases :
    {A : Type 0} (r : Result A) → ((a : A) × (r ≡ ok a)) ⊎ ((e : Error) × (r ≡ err e))
Result-cases (ok a) = inl (a, refl)
Result-cases (err e) = inr (e, refl)

pub ok_eq : {A : Type 0} {a b : A} → ok a ≡ ok b → a ≡ b
ok_eq e = cc

pub ok_err : {A : Type 0} {a : A} {e : Error} → err e ≡ ok a → ⊥
ok_err q = cc

-- An error ends a chain of calls.
infixl 5 ◌>>=◌
abbrev pub ◌>>=◌ : {A B : Type 0} → Result A → (A → Result B) → Result B
err failure >>= next = err failure
ok value >>= next = next value

-- Where a chain succeeded, its first call did.
pub >>=-eq-ok :
    {A B : Type 0} (first : Result A) (next : A → Result B) {result : B}
    → first >>= next ≡ ok result
    → (value : A) × (first ≡ ok value) × (next value ≡ ok result)
>>=-eq-ok (err failure) next h = absurd (ok_err h)
>>=-eq-ok (ok value) next h = (value, refl, h)

pub record StateData : Type 0 where
  pub next_message_id : ℤ
  pub next_todo_id : ℤ
  pub weather : Weather
  pub users : List User
  pub devices : List Device
  pub messages : List Message
  pub todos : List Todo

-- The contents of the files, by path; `none` where there is no file.
abbrev pub Files : Type 0
Files = String → Option String

abbrev pub put_file : String → Option String → Files → Files
put_file path text files p = if p == path then text else files p

-- `contents` is the field `data` of `stateFile`; `files` is the file system around the store.
pub record FileStore : Type 0 where
  pub contents : StateData
  pub state_path : String
  pub telemetry_path : String
  pub next_telemetry_id : ℤ
  pub files : Files

-- encoding/json at the two types that the store writes. `decode_state` unmarshals into a value.
pub record Codec : Type 0 where
  pub encode_state : StateData → Result String
  pub decode_state : StateData → String → Result StateData
  pub encode_telemetry : Telemetry → Result String
  pub decode_telemetry : String → Result Telemetry

-- Where a write of a file fails: the error, and what the file then holds.
abbrev pub WriteFault : Type 0
WriteFault = Option (Error × Option String)

-- The outcome of each system call of `stateFile.save`; `none` is success.
pub record SaveFaults : Type 0 where
  pub mkdir_fails : Option Error
  pub write_fails : WriteFault
  pub rename_fails : Option Error

-- The outcome of each system call of `telemetryLog.append`. A failed first write leaves some text.
pub record AppendFaults : Type 0 where
  pub mkdir_fails : Option Error
  pub open_fails : Option Error
  pub write_fails : Option (Error × String)
  pub newline_fails : Option Error

-- What one call of a store method takes from outside: `codes` are the draws of `randomDigits(6)`,
-- `hex` that of `randomHex(8)`, and `scan_fails` an error of a read of the telemetry log.
pub record Env : Type 0 where
  pub codec : Codec
  pub now : Time
  pub codes : List String
  pub hex : String
  pub save_faults : SaveFaults
  pub append_faults : AppendFaults
  pub scan_fails : Option Error
