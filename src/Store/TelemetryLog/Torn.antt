-- ===== src/Store/TelemetryLog/Torn.antt =====
-- A telemetry log whose last append failed halfway (internal/store/telemetry_log.go).
use Prim.Native.String
use text.Mathlib.TextLemmas.{append_assoc as text_assoc}
use tinypanel_hub.Prelude.{
  String, List, [], ◌∷◌, ◌++◌, Option, none, some, ℤ, eq_string, ◌≡◌, refl, ap, ◌∙◌, All,
  All-append, Bool-cases, ==_of_ne, eq_refl, ◌≢◌, ◌⊎◌, inl, inr, eq_int,
}
use tinypanel_hub.Domain.{Telemetry}
use tinypanel_hub.Store.State.{
  Error, ok, err, Files, Result-cases, Codec, AppendFaults, put_file, external,
}
use tinypanel_hub.Store.TelemetryLog.{
  drop_cr, too_long, parse_line, scan_loop, load_recent, append_telemetry, write_json_line,
}
use tinypanel_hub.Store.TelemetryLog.Lines.{
  unlines, IsLine, split_lines-unlines, unlines-append, scan_loop-err, scan_loop-append,
  scan_loop-append_err,
}
use tinypanel_hub.Store.TelemetryLog.Append.{NoFaults}

-- The append of a record with the text `b` stops with an error and leaves `left` of its line: a part
-- of the text, or all of it where the newline cannot be written.
pub record Torn (f : AppendFaults) (b left : String) (e : Error) : Type 0 where
  pub mkdir : f.mkdir_fails ≡ none
  pub opened : f.open_fails ≡ none
  pub stopped :
      (f.write_fails ≡ some (e, left))
      ⊎ ((f.write_fails ≡ none) × (f.newline_fails ≡ some e) × (left ≡ b))

parse_line_unreadable :
    (c : Codec) (b : String) (x : Error)
    → drop_cr b ≡ b
    → b ≢ ""
    → c.decode_telemetry b ≡ err x
    → (y : Error) × (parse_line c b ≡ err y)
unfolding parse_line
parse_line_unreadable c b x no_cr full unread = elim (Bool-cases (too_long b)) [
  | inl long ↦ (external "bufio.Scanner: token too long", rw (long, parse_line) refl)
  | inr short ↦ (x, rw (short, parse_line) (rw no_cr (rw (==_of_ne _ _ full) (rw unread refl))))
]

module _ (c : Codec) (f f' : AppendFaults) (t t' : Telemetry) (b b' left path : String) (e : Error)
    (ls : List String) (files : Files) (torn : Torn f b left e) (fine : NoFaults f')
    (encoded : c.encode_telemetry t ≡ ok b) (encoded' : c.encode_telemetry t' ≡ ok b')
    (old : files path ≡ some (unlines ls)) where
  abbrev files_after : Files
  files_after = put_file path (some (String.◌++◌ (unlines ls) left)) files

  append_torn : append_telemetry c f t path files ≡ (files_after, some e)
  unfolding append_telemetry write_json_line
  append_torn = elim torn.stopped [
    | inl w ↦
        rw (torn.mkdir, append_telemetry)
          (rw torn.opened (rw encoded (rw (w, write_json_line) (rw old refl))))
    | inr (w, n, same) ↦
        rw (torn.mkdir, append_telemetry)
          (rw torn.opened (rw encoded (rw (w, write_json_line) (rw n (rw old (rw same refl))))))
  ]

  append_glued :
      append_telemetry c f' t' path files_after
      ≡ (put_file path (some (unlines (ls ++ String.◌++◌ left b' ∷ []))) files_after, none)
  unfolding append_telemetry write_json_line
  append_glued =
      rw (fine.mkdir, append_telemetry)
        (rw fine.opened (
          rw encoded' (
            rw (fine.written, write_json_line)
              (rw fine.newline (
                rw (eq_refl path) (
                  rw (unlines-append ls (String.◌++◌ left b'))
                    (rw (text_assoc (unlines ls) left b') refl)))))))

  load_glued :
      (limit : ℤ)
      → All IsLine ls
      → IsLine (String.◌++◌ left b')
      → load_recent c none (append_telemetry c f' t' path files_after).0 path limit
        ≡ scan_loop c limit (ls ++ String.◌++◌ left b' ∷ []) []
  unfolding load_recent
  load_glued limit lines line = rw append_glued (
      rw (eq_refl path, load_recent)
        (rw
          (split_lines-unlines (ls ++ String.◌++◌ left b' ∷ [])
            (All-append IsLine ls (String.◌++◌ left b' ∷ []) lines (line, tt)))
          refl))

  -- Where an append to a log of whole lines stopped with an error, the next one goes on on the line
  -- that was left. It succeeds if the system calls do, and then no load of the log succeeds, whatever
  -- the limit, if the two texts on one line are not a record's.
  pub append_torn-load_recent :
      (limit : ℤ) (x : Error)
      → All IsLine ls
      → IsLine (String.◌++◌ left b')
      → drop_cr (String.◌++◌ left b') ≡ String.◌++◌ left b'
      → String.◌++◌ left b' ≢ ""
      → c.decode_telemetry (String.◌++◌ left b') ≡ err x
      → let (files1, e1) = append_telemetry c f t path files in
        let (files2, e2) = append_telemetry c f' t' path files1 in
        (e1 ≡ some e) × (e2 ≡ none) × ((y : Error) × (load_recent c none files2 path limit ≡ err y))
  append_torn-load_recent limit x lines line no_cr full unread = rw append_torn (
    refl,
    ap (λ (r : Files × Option Error). r.1) append_glued,
    elim (Result-cases (scan_loop c limit ls [])) [
      | inl (items, before) ↦
          let (y, refused) = parse_line_unreadable c (String.◌++◌ left b') x no_cr full unread in
          (
            y,
            load_glued limit lines line
                ∙ scan_loop-append c limit ls (String.◌++◌ left b' ∷ []) [] items before
                ∙ scan_loop-err c limit (String.◌++◌ left b') [] items y refused,
          )
      | inr (y, before) ↦ (
        y,
        load_glued limit lines line
            ∙ scan_loop-append_err c limit ls (String.◌++◌ left b' ∷ []) [] y before,
      )
    ],
  )
