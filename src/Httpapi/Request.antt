-- ===== src/Httpapi/Request.antt =====
-- internal/httpapi/request.go and response.go: what a handler reads of a request and what it writes.
use Prim.Native.Char.{code}
use Prim.Native.String
use tinypanel_hub.Prelude.{
  ℕ, zero, suc, ◌+◌, ◌-◌, ◌*◌, String, List, Option, none, some, ℤ, pos, negsuc, Bool, true, false,
  ◌&&◌, if◌then◌else◌, ◌==◌, eq_string, eq_int, eq_nat, nat_eq, leb, ltb_ℤ, leb_ℤ, trim_space, ◌≡◌,
  refl, arith, Bool-cases, Option-cases, ◌⊎◌, inl, inr, ◌≤ℤ◌,
}
use tinypanel_hub.Domain.{Weather, Snapshot, Telemetry, Message, Todo, User, Device, DeviceHello}
use tinypanel_hub.Store.State.{external, error_text, Result, ok, err}

-- `Decode` of a json.Decoder without unknown fields: the first value of a text and the text after
-- it; `at_end` is whether nothing but space is left, which a second `Decode` reports as io.EOF.
pub record Decoder (A : Type 0) : Type 0 where
  pub first : String → Result (A × String)
  pub at_end : String → Bool

-- The part of a request that the handlers read; `body` is what `io.LimitReader` lets through.
pub record Request : Type 0 where
  pub header : String → String
  pub path : String → String
  pub query : String → String
  pub body : Option String

-- The map of `filteredSnapshot`: the parts that are in it.
pub record FilteredSnapshot : Type 0 where
  pub weather : Option Weather
  pub messages : Option (List Message)
  pub todos : Option (List Todo)
  pub telemetry : Option (List Telemetry)

-- The bodies of the responses.
pub data Payload : Type 0 where
  no_content : Payload
  error_detail : (detail_code text : String) → Payload
  version_conflict : (current_version : ℤ) → Payload
  user_body : User → Payload
  new_user_body : (user : User) (api_token : String) → Payload
  device_body : Device → Payload
  devices_body : List Device → Payload
  hello_body : DeviceHello → Payload
  todo_body : Todo → Payload
  todos_body : List Todo → Payload
  message_body : Message → Payload
  messages_body : List Message → Payload
  inbox_body : (device_id : String) (messages : List Message) → Payload
  telemetry_body : Telemetry → Payload
  telemetries_body : List Telemetry → Payload
  snapshot_body : Snapshot → Payload
  filtered_body : FilteredSnapshot → Payload
  weather_body : Weather → Payload
  health_body : (status : String) → Payload
  batch_body : (count : ℕ) (items : List Telemetry) → Payload
  ack_body : (device_id : String) (acked_ids missing_ids : List ℤ) → Payload

pub record Response : Type 0 where
  pub status : ℕ
  pub payload : Payload

abbrev pub write_json : ℕ → Payload → Response
write_json status payload = record { status = status; payload = payload }

unfoldable pub default_error_code : ℕ → String
default_error_code status =
    if status == 400
    then "invalid_request"
    else if status == 401
    then "unauthorized"
    else if status == 404
    then "not_found"
    else if status == 409
    then "conflict"
    else if status == 502
    then "upstream_error"
    else "internal_error"

unfoldable pub write_error : ℕ → String → Response
unfolding default_error_code
write_error status message = write_json status (error_detail (default_error_code status) message)

-- `writeStoreError`
abbrev pub write_store_error : Response
write_store_error = write_error 500 "store error"

-- A step of a handler: a value to go on with, or the response that ends it.
pub data Checked (A : Type 0) : Type 0 where
  valid : A → Checked A
  reply : Response → Checked A

pub Checked-cases :
    {A : Type 0} (c : Checked A) → ((a : A) × (c ≡ valid a)) ⊎ ((x : Response) × (c ≡ reply x))
Checked-cases (valid a) = inl (a, refl)
Checked-cases (reply x) = inr (x, refl)

pub valid_eq : {A : Type 0} {a b : A} → valid a ≡ valid b → a ≡ b
valid_eq e = cc

pub reply_valid : {A : Type 0} {x : Response} {a : A} → reply x ≡ valid a → ⊥
reply_valid e = cc

pub reply_eq : {B : Type 0} {x y : Response} → ◌≡◌ {A = Checked B} (reply x) (reply y) → x ≡ y
reply_eq q = cc

unfoldable pub read_json : {A : Type 0} → Decoder A → Request → Result A
read_json dec r = elim r.body [
  | none ↦ err (external "request body is required")
  | some b ↦ elim (dec.first b) [
    | err e ↦ err e
    | ok (a, rest) ↦
        if dec.at_end rest
        then ok a
        else err (external "request body must contain a single JSON value")
  ]
]

-- `readJSON` with the response to its error.
unfoldable pub json_body : {A : Type 0} → Decoder A → Request → Checked A
unfolding read_json write_error
json_body dec r = elim (read_json dec r) [
  | err e ↦ reply (write_error 400 (error_text e))
  | ok a ↦ valid a
]

-- The value of decimal digits after `acc`; none where there is another character.
unfoldable pub digits : ℕ → String → Option ℕ
digits acc String.[] = some acc
digits acc (String.◌∷◌ c s) =
    let rest = digits (acc * 10 + (code c - 48)) s in
    if leb 48 (code c) && leb (code c) 57 then rest else none

abbrev unsigned : String → Option ℕ
unsigned String.[] = none
unsigned (String.◌∷◌ c s) = digits 0 (String.◌∷◌ c s)

abbrev negative : ℕ → ℤ
negative zero = pos 0
negative (suc n) = negsuc n

abbrev in_int64 : Bool → ℕ → Option ℤ
in_int64 true n = if leb n 9223372036854775808 then some (negative n) else none
in_int64 false n = if leb n 9223372036854775807 then some (pos n) else none

abbrev signed : Bool → Option ℕ → Option ℤ
signed minus none = none
signed minus (some n) = in_int64 minus n

-- `strconv.ParseInt(s, 10, 64)`, and `strconv.Atoi`: a sign, digits, and a value in range.
unfoldable pub parse_int : String → Option ℤ
unfolding digits
parse_int String.[] = none
parse_int (String.◌∷◌ c s) =
    if nat_eq (code c) 45
    then signed true (unsigned s)
    else if nat_eq (code c) 43
    then signed false (unsigned s)
    else signed false (unsigned (String.◌∷◌ c s))

abbrev pub path_string : Request → String → String
path_string r name = trim_space (r.path name)

abbrev clamp : ℤ → ℤ → ℤ → ℤ
clamp low high n = if ltb_ℤ n low then low else if ltb_ℤ high n then high else n

unfoldable pub query_int : Request → String → ℤ → ℤ → ℤ → ℤ
unfolding parse_int
query_int r name fallback low high =
    if r.query name == ""
    then fallback
    else elim (parse_int (r.query name)) [ none ↦ fallback | some n ↦ clamp low high n ]

unfoldable pub path_id : Request → String → Checked ℤ
unfolding parse_int write_error
path_id r name = elim (parse_int (path_string r name)) [
  | none ↦ reply (write_error 400 (String.◌++◌ name " must be a positive integer"))
  | some id ↦
      if leb_ℤ id (pos 0)
      then reply (write_error 400 (String.◌++◌ name " must be a positive integer"))
      else valid id
]

clamp_lem : (low high n : ℤ) → low ≤ℤ high → (low ≤ℤ clamp low high n) × (clamp low high n ≤ℤ high)
clamp_lem low high n h = elim (Bool-cases (ltb_ℤ n low)) [
  | inl a ↦ rw a (omega arith, omega arith)
  | inr a ↦ elim (Bool-cases (ltb_ℤ high n)) [
    | inl b ↦ rw (a, b) (omega arith, omega arith)
    | inr b ↦ rw (a, b) (ground arith, ground arith)
  ]
]

-- A number of the query is between its bounds, whatever the query says, if the fallback is.
pub query_int_lem :
    (r : Request) (name : String) (fallback low high : ℤ)
    → low ≤ℤ fallback
    → fallback ≤ℤ high
    → (low ≤ℤ query_int r name fallback low high) × (query_int r name fallback low high ≤ℤ high)
unfolding query_int
query_int_lem r name fallback low high p q = elim (Bool-cases (r.query name == "")) [
  | inl e ↦ rw (e, query_int) (p, q)
  | inr e ↦ elim (Option-cases (parse_int (r.query name))) [
    | inl f ↦ rw (e, query_int) (rw f (p, q))
    | inr (n, f) ↦ rw (e, query_int) (rw f (clamp_lem low high n (omega arith)))
  ]
]
