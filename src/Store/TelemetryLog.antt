-- ===== src/Store/TelemetryLog.antt =====
-- internal/store/telemetry_log.go: the JSONL file of telemetry.
pub mod Append
pub mod Torn
pub mod Lines
use Prim.Native.Char.{Char, code}
use Prim.Native.String
use tinypanel_hub.Prelude.{
  ℕ, String, List, [], ◌∷◌, ◌++◌, Option, none, some, ℤ, pos, if◌then◌else◌, ◌==◌, eq_string,
  eq_int, Bool, ◌&&◌, ltb_ℤ, length, drop, nat_eq, leb, pos_part, ◌-◌,
}
use tinypanel_hub.Domain.{Telemetry}
use tinypanel_hub.Store.State.{
  Error, external, Result, ok, err, Files, put_file, Codec, AppendFaults,
}

-- Lines of a text: a character in front of the first line.
unfoldable pub push_char : Char → List String → List String
push_char c [] = String.◌∷◌ c String.[] ∷ []
push_char c (l ∷ ls) = String.◌∷◌ c l ∷ ls

-- The text between newlines, as `bufio.ScanLines` cuts it; nothing follows a last newline.
unfoldable pub split_lines : String → List String
unfolding push_char
split_lines String.[] = []
split_lines (String.◌∷◌ c s) =
    if nat_eq (code c) 10 then "" ∷ split_lines s else push_char c (split_lines s)

-- One carriage return at the end of a line is dropped.
unfoldable pub drop_cr : String → String
drop_cr String.[] = String.[]
drop_cr (String.◌∷◌ c s) =
    let rest = drop_cr s in if nat_eq (code c) 13 && s == "" then "" else String.◌∷◌ c rest

-- The scanner's limit: a line with its newline has to fit into 1024 * 1024 bytes.
abbrev pub max_line : ℕ
max_line = 1048576

abbrev pub too_long : String → Bool
too_long raw = leb max_line (String.len raw)

-- The window of `loadRecent`: the last `limit` items, or all if the limit is not positive.
unfoldable pub keep_recent : ℤ → List Telemetry → List Telemetry
keep_recent limit items =
    if ltb_ℤ (pos 0) limit && ltb_ℤ limit (pos (length items))
    then drop (length items - pos_part limit) items
    else items

-- One round of the loop of `loadRecent`: a record, or none where the line is skipped.
unfoldable pub parse_line : Codec → String → Result (Option Telemetry)
unfolding drop_cr
parse_line c raw =
    if too_long raw
    then err (external "bufio.Scanner: token too long")
    else if drop_cr raw == ""
    then ok none
    else elim (c.decode_telemetry (drop_cr raw)) [ err e ↦ err e | ok item ↦ ok (some item) ]

-- The loop of `loadRecent` over the lines.
unfoldable pub scan_loop : Codec → ℤ → List String → List Telemetry → Result (List Telemetry)
unfolding keep_recent parse_line
scan_loop c limit [] items = ok items
scan_loop c limit (raw ∷ rest) items = elim (parse_line c raw) [
  | err e ↦ err e
  | ok none ↦ scan_loop c limit rest items
  | ok (some item) ↦ scan_loop c limit rest (keep_recent limit (items ++ item ∷ []))
]

-- `loadRecent`; `fails` is an error of opening or reading other than that the file is missing.
unfoldable pub load_recent : Codec → Option Error → Files → String → ℤ → Result (List Telemetry)
unfolding scan_loop split_lines
load_recent c (some e) files path limit = err e
load_recent c none files path limit = elim (files path) [
  | none ↦ ok []
  | some s ↦ scan_loop c limit (split_lines s) []
]

abbrev text_or_empty : Option String → String
text_or_empty none = ""
text_or_empty (some s) = s

-- `writeJSONLine` at the end of the file: the text and the newline are two writes.
unfoldable pub write_json_line :
    AppendFaults → Result String → String → Files → Files × Option Error
write_json_line f (err e) path files =
    (put_file path (some (text_or_empty (files path))) files, some e)
write_json_line f (ok b) path files =
    let old = text_or_empty (files path) in
    let longer = String.◌++◌ old b in
    elim f.write_fails [
      | some (e, left) ↦ (put_file path (some (String.◌++◌ old left)) files, some e)
      | none ↦ elim f.newline_fails [
        | some e ↦ (put_file path (some longer) files, some e)
        | none ↦ (put_file path (some (String.◌++◌ longer "\n")) files, none)
      ]
    ]

-- `telemetryLog.append`
unfoldable pub append_telemetry :
    Codec → AppendFaults → Telemetry → String → Files → Files × Option Error
unfolding write_json_line
append_telemetry c f item path files = elim f.mkdir_fails [
  | some e ↦ (files, some e)
  | none ↦ elim f.open_fails [
    | some e ↦ (files, some e)
    | none ↦ write_json_line f (c.encode_telemetry item) path files
  ]
]
