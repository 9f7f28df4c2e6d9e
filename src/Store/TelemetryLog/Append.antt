-- ===== src/Store/TelemetryLog/Append.antt =====
-- Appending to the telemetry log and reading it back (internal/store/telemetry_log.go).
use tinypanel_hub.Prelude.{
  subst, ℕ, zero, suc, ◌-◌, pos, negsuc, pos_part, ltb_ℤ, ◌&&◌, length, take, drop, length-drop,
  Bool-cases, ◌≤ℤ◌, ◌<ℤ◌, ◌⊎◌, ◌≤◌, ◌<◌, String, List, [], ◌∷◌, ◌++◌, Option, none, some, ℤ, true,
  false, eq_string, eq_int, leb, ◌≡◌, refl, sym, ap, ◌∙◌, arith, All, All-append, ==_of_ne, eq_refl,
  ◌≢◌, inl, inr,
}
use tinypanel_hub.Domain.{Telemetry}
use tinypanel_hub.Store.State.{Error, ok, err, Files}
use Prim.Native.String
use tinypanel_hub.Store.State.{Result-cases, Codec, AppendFaults, put_file, external}
use tinypanel_hub.Store.TelemetryLog.{
  drop_cr, keep_recent, parse_line, scan_loop, load_recent, append_telemetry, write_json_line,
}
use tinypanel_hub.Store.TelemetryLog.Lines.{
  unlines, IsLine, split_lines-unlines, unlines-append, scan_loop-item, scan_loop-err,
  scan_loop-append, scan_loop-append_err,
}

-- What encoding/json promises of the text `b` of a record: one line, with no carriage return at its
-- end, that unmarshals to the record.
pub record IsRecordText (c : Codec) (t : Telemetry) (b : String) : Type 0 where
  pub encoded : c.encode_telemetry t ≡ ok b
  pub line : IsLine b
  pub no_cr : drop_cr b ≡ b
  pub full : b ≢ ""
  pub back : c.decode_telemetry b ≡ ok t

parse_line_item :
    (c : Codec) (t : Telemetry) (b : String)
    → IsRecordText c t b
    → String.len b < 1048576
    → parse_line c b ≡ ok (some t)
unfolding parse_line
parse_line_item c t b h fits =
    let short : leb 1048576 (String.len b) ≡ false = ground arith in
    rw (short, h.no_cr) (rw (==_of_ne _ _ h.full) (rw h.back))

parse_line_long :
    (c : Codec) (b : String)
    → 1048576 ≤ String.len b
    → parse_line c b ≡ err (external "bufio.Scanner: token too long")
unfolding parse_line
parse_line_long c b h = let long : leb 1048576 (String.len b) ≡ true = ground arith in rw long

-- The system calls of `append` succeed.
pub record NoFaults (f : AppendFaults) : Type 0 where
  pub mkdir : f.mkdir_fails ≡ none
  pub opened : f.open_fails ≡ none
  pub written : f.write_fails ≡ none
  pub newline : f.newline_fails ≡ none

-- The newest records of `all`: a part of its end, of all of them or of as many as a positive limit
-- allows.
pub record IsNewest (limit : ℤ) (all window : List Telemetry) : Type 0 where
  pub older : List Telemetry
  pub split : all ≡ older ++ window
  pub within : (limit ≤ℤ pos 0) ⊎ (pos (length window) ≤ℤ limit)
  pub full : (older ≡ []) ⊎ ((pos 0 <ℤ limit) × (pos (length window) ≡ limit))

take-drop : {A : Type 0} (n : ℕ) (xs : List A) → xs ≡ take n xs ++ drop n xs
take-drop zero xs = refl
take-drop (suc n) [] = refl
take-drop (suc n) (x ∷ xs) = ap (λ l. x ∷ l) (take-drop n xs)

keep_recent-IsNewest :
    (limit : ℤ) (all : List Telemetry) → IsNewest limit all (keep_recent limit all)
unfolding keep_recent
keep_recent-IsNewest limit all =
    elim (Bool-cases (ltb_ℤ (pos 0) limit && ltb_ℤ limit (pos (length all)))) [
      | inl cut ↦
          let n = length all - pos_part limit in
          let room = length-drop n all in
          rw (cut, keep_recent)
            (record {
              older = take n all;
              split = take-drop n all;
              within = inr (subst (λ x. x ≤ℤ limit) (sym (exact limit cut)) (omega arith));
              full = inr (ground arith, exact limit cut);
            })
      | inr uncut ↦
          rw (uncut, keep_recent)
            (record { older = []; split = refl; within = ground arith; full = inl refl })
    ]
  where
    exact :
        (limit : ℤ)
        → (ltb_ℤ (pos 0) limit && ltb_ℤ limit (pos (length all))) ≡ true
        → pos (length (drop (length all - pos_part limit) all)) ≡ limit
    exact (pos m) cut = ap pos (omega (arith, length-drop (length all - m) all, bound m cut))
      where
        bound :
            (m : ℕ)
            → (ltb_ℤ (pos 0) (pos m) && ltb_ℤ (pos m) (pos (length all))) ≡ true
            → m < length all
        bound m cut = ground arith
    exact (negsuc m) cut = absurd (ground arith)

scan_end : (c : Codec) (limit : ℤ) (items : List Telemetry) → scan_loop c limit [] items ≡ ok items
unfolding scan_loop
scan_end c limit items = refl

module _ (c : Codec) (f : AppendFaults) (t : Telemetry) (b path : String) (ls : List String)
    (files : Files) (text : IsRecordText c t b) (fine : NoFaults f)
    (old : files path ≡ some (unlines ls)) where
  append_text :
      append_telemetry c f t path files
      ≡ (put_file path (some (unlines (ls ++ b ∷ []))) files, none)
  unfolding append_telemetry write_json_line
  append_text =
      rw (fine.mkdir, append_telemetry)
        (rw fine.opened (
          rw text.encoded (
            rw (fine.written, write_json_line)
              (rw fine.newline (rw (old, unlines-append ls b) refl)))))

  load_appended :
      (limit : ℤ)
      → All IsLine ls
      → load_recent c none (append_telemetry c f t path files).0 path limit
        ≡ scan_loop c limit (ls ++ b ∷ []) []
  unfolding load_recent
  load_appended limit lines = rw append_text (
      rw (eq_refl path, load_recent)
        (rw
          (split_lines-unlines (ls ++ b ∷ []) (All-append IsLine ls (b ∷ []) lines (text.line, tt)))
          refl))

  load_before :
      (limit : ℤ) → All IsLine ls → load_recent c none files path limit ≡ scan_loop c limit ls []
  unfolding load_recent
  load_before limit lines = rw (old, load_recent) (rw (split_lines-unlines ls lines))

  -- A record that was appended to a log of whole lines is read back as the newest one, after those
  -- that the log gave before: the load gives the newest of them all, and leaves out old ones only
  -- where a positive limit has no room for them. This is of a record whose text is one line shorter
  -- than 1024 * 1024 bytes that unmarshals to it, and of system calls that succeed.
  pub append-load_recent :
      (limit : ℤ) (items : List Telemetry)
      → All IsLine ls
      → load_recent c none files path limit ≡ ok items
      → String.len b < 1048576
      → let (files', e) = append_telemetry c f t path files in
        (e ≡ none)
        × ((window : List Telemetry) × (load_recent c none files' path limit ≡ ok window)
            × IsNewest limit (items ++ t ∷ []) window)
  append-load_recent limit items lines before fits = (
    ap (λ (r : Files × Option Error). r.1) append_text,
    (
      keep_recent limit (items ++ t ∷ []),
      load_appended limit lines
          ∙ scan_loop-append c limit ls (b ∷ []) [] items (sym (load_before limit lines) ∙ before)
          ∙ scan_loop-item c limit b [] items t (parse_line_item c t b text fits)
          ∙ scan_end c limit _,
      keep_recent-IsNewest limit (items ++ t ∷ []),
    ),
  )

  -- A record whose text has 1024 * 1024 bytes or more is appended to a log of whole lines without an
  -- error, if the system calls succeed, and then no load of the log succeeds, whatever the limit.
  pub append_too_long :
      (limit : ℤ)
      → All IsLine ls
      → 1048576 ≤ String.len b
      → let (files', e) = append_telemetry c f t path files in
        (e ≡ none) × ((x : Error) × (load_recent c none files' path limit ≡ err x))
  append_too_long limit lines long = (
    ap (λ (r : Files × Option Error). r.1) append_text,
    elim (Result-cases (scan_loop c limit ls [])) [
      | inl (items, before) ↦ (
        _,
        load_appended limit lines
            ∙ scan_loop-append c limit ls (b ∷ []) [] items before
            ∙ scan_loop-err c limit b [] items _ (parse_line_long c b long),
      )
      | inr (x, before) ↦
          (x, load_appended limit lines ∙ scan_loop-append_err c limit ls (b ∷ []) [] x before)
    ],
  )
