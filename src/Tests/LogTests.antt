-- ===== src/Tests/LogTests.antt =====
-- The telemetry log of internal/store at concrete inputs, one of them a record of 1 MiB.
use Prim.Native.Char.{Char, code, len_utf8}
use Prim.Native.String
use Prim.Native.String.{len}
use Prim.Native.String.len
use text.Mathlib.TextLemmas.{nil-append, cons-append}
use tinypanel_hub.Domain.{Telemetry}
use tinypanel_hub.Prelude.{
  List, ℕ, zero, suc, ◌+◌, ◌*◌, ◌≤◌, String, [], ◌∷◌, none, pos, nat_eq, eq_string, eq_int, ◌≡◌,
  refl, ap, ◌∙◌, arith, ne_of_==, false,
}
use tinypanel_hub.Store.State.{Error, ok, err, Codec}
use tinypanel_hub.Store.TelemetryLog.{
  split_lines, drop_cr, keep_recent, parse_line, scan_loop, load_recent, append_telemetry,
}
use tinypanel_hub.Store.TelemetryLog.Lines.{IsLine}
use tinypanel_hub.Store.State.{AppendFaults, external}
use tinypanel_hub.Prelude.{some, inl, if◌then◌else◌, ◌==◌}
use tinypanel_hub.Store.TelemetryLog.Torn.{Torn, append_torn-load_recent}
use tinypanel_hub.Store.TelemetryLog.Append.{
  IsNewest, IsRecordText, NoFaults, append-load_recent, append_too_long,
}
use tinypanel_hub.Tests.Fixtures.{sample_telemetry, codec, append_fine, store}

fine : NoFaults append_fine
fine = record { mkdir = refl; opened = refl; written = refl; newline = refl }

record_text : IsRecordText codec sample_telemetry "record"
unfolding drop_cr
record_text = record {
  encoded = refl;
  line = (refl, (refl, (refl, (refl, (refl, (refl, tt))))));
  no_cr = refl;
  full = ne_of_== "record" "" refl;
  back = refl;
}

log_before : load_recent codec none store.files "log.jsonl" (pos 1) ≡ ok (sample_telemetry ∷ [])
unfolding load_recent split_lines scan_loop parse_line drop_cr keep_recent
log_before = refl

append-load_recent_example :
    let (files', e) = append_telemetry codec append_fine sample_telemetry "log.jsonl" store.files in
    (e ≡ none)
    × ((window : List Telemetry) × (load_recent codec none files' "log.jsonl" (pos 1) ≡ ok window)
        × IsNewest (pos 1) (sample_telemetry ∷ sample_telemetry ∷ []) window)
append-load_recent_example =
    append-load_recent codec append_fine sample_telemetry "record" "log.jsonl" ("record" ∷ [])
      store.files record_text fine refl (pos 1) (sample_telemetry ∷ [])
      ((refl, (refl, (refl, (refl, (refl, (refl, tt)))))), tt) log_before (omega arith)

-- A text with no line end in it.
abbrev IsPlain : String → Type 0
IsPlain String.[] = Unit
IsPlain (String.◌∷◌ c s) = (nat_eq (code c) 10 ≡ false) × (nat_eq (code c) 13 ≡ false) × IsPlain s

IsPlain-append : (s t : String) → IsPlain s → IsPlain t → IsPlain (String.◌++◌ s t)
IsPlain-append String.[] t p q = rw nil-append q
IsPlain-append (String.◌∷◌ c s) t (a, b, p) q = rw cons-append (a, b, IsPlain-append s t p q)

drop_cr_plain : (s : String) → IsPlain s → drop_cr s ≡ s
unfolding drop_cr
drop_cr_plain String.[] p = refl
drop_cr_plain (String.◌∷◌ c s) (a, b, p) = rw (b, drop_cr_plain s p) refl

IsLine-plain : (s : String) → IsPlain s → IsLine s
IsLine-plain String.[] p = tt
IsLine-plain (String.◌∷◌ c s) (a, b, p) = (a, IsLine-plain s p)

len-cons : (c : Char) (s : String) → len (String.◌∷◌ c s) ≡ len_utf8 c + len s
len-cons c s = λ i. len.cons c s i

len-append : (s t : String) → len (String.◌++◌ s t) ≡ len s + len t
len-append String.[] t = rw nil-append (omega arith)
len-append (String.◌∷◌ c s) t =
    rw cons-append (omega (arith, len-cons c (String.◌++◌ s t), len-append s t, len-cons c s))

-- The text twice, `n` times.
doubled : ℕ → String
doubled zero = "a"
doubled (suc n) = String.◌++◌ (doubled n) (doubled n)

abbrev size : ℕ → ℕ
size zero = 1
size (suc n) = 2 * size n

doubled-IsPlain : (n : ℕ) → IsPlain (doubled n)
unfolding doubled
doubled-IsPlain zero = (refl, refl, tt)
doubled-IsPlain (suc n) =
    IsPlain-append (doubled n) (doubled n) (doubled-IsPlain n) (doubled-IsPlain n)

len-doubled : (n : ℕ) → len (doubled n) ≡ size n
unfolding doubled
len-doubled zero = refl
len-doubled (suc n) = len-append (doubled n) (doubled n) ∙ omega (arith, len-doubled n)

mebibyte : 1048576 ≤ len (doubled 20)
mebibyte = omega (arith, len-doubled 20)

abbrev long_codec : Codec
long_codec = record codec { encode_telemetry = λ _. ok (doubled 20) }

long_text : IsRecordText long_codec sample_telemetry (doubled 20)
long_text = record {
  encoded = refl;
  line = IsLine-plain (doubled 20) (doubled-IsPlain 20);
  no_cr = drop_cr_plain (doubled 20) (doubled-IsPlain 20);
  full = λ e. omega (arith, mebibyte, ap len e);
  back = refl;
}

append_too_long_example :
    let (files', e) =
      append_telemetry long_codec append_fine sample_telemetry "log.jsonl" store.files in
    (e ≡ none) × ((x : Error) × (load_recent long_codec none files' "log.jsonl" (pos 500) ≡ err x))
append_too_long_example =
    append_too_long long_codec append_fine sample_telemetry (doubled 20) "log.jsonl" ("record" ∷ [])
      store.files long_text fine refl (pos 500)
      ((refl, (refl, (refl, (refl, (refl, (refl, tt)))))), tt) mebibyte

-- A codec that reads the text of one record, and a write that stops after three bytes of it.
abbrev strict_codec : Codec
strict_codec = record {
  encode_state = λ _. ok "state";
  decode_state = codec.decode_state;
  encode_telemetry = λ _. ok "record";
  decode_telemetry =
      λ b. if b == "record" then ok sample_telemetry else err (external "trailing data");
}

abbrev stops : AppendFaults
stops = record append_fine { write_fails = some (external "no space", "rec") }

stopped : Torn stops "record" "rec" (external "no space")
stopped = record { mkdir = refl; opened = refl; stopped = inl refl }

no_cr_left : drop_cr "recrecord" ≡ "recrecord"
unfolding drop_cr
no_cr_left = refl

append_torn-load_recent_example :
    let (files1, e1) =
      append_telemetry strict_codec stops sample_telemetry "log.jsonl" store.files in
    let (files2, e2) =
      append_telemetry strict_codec append_fine sample_telemetry "log.jsonl" files1 in
    (e1 ≡ some (external "no space"))
    × (e2 ≡ none)
    × ((y : Error) × (load_recent strict_codec none files2 "log.jsonl" (pos 500) ≡ err y))
append_torn-load_recent_example =
    append_torn-load_recent strict_codec stops append_fine sample_telemetry sample_telemetry
      "record" "record" "rec" "log.jsonl" (external "no space") ("record" ∷ []) store.files stopped
      fine refl refl refl (pos 500) (external "trailing data")
      ((refl, (refl, (refl, (refl, (refl, (refl, tt)))))), tt)
      (refl, (refl, (refl, (refl, (refl, (refl, (refl, (refl, (refl, tt))))))))) no_cr_left
      (ne_of_== "recrecord" "" refl) refl
