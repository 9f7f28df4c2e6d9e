-- ===== src/Store/TelemetryLog/Lines.antt =====
-- The lines of the telemetry log and the loop over them (internal/store/telemetry_log.go).
use tinypanel_hub.Prelude.{
  String, List, [], ◌∷◌, ◌++◌, none, some, ℤ, false, eq_string, eq_int, ◌≡◌, refl, sym, ap, ◌∙◌,
  All, inl, inr,
}
use tinypanel_hub.Domain.{Telemetry}
use tinypanel_hub.Store.State.{Error, ok, err}
use Prim.Native.Char.{code}
use Prim.Native.String
use text.Mathlib.TextLemmas.{nil-append, cons-append, append_assoc as text_assoc}
use tinypanel_hub.Prelude.{nat_eq}
use tinypanel_hub.Store.State.{Result-cases, Codec}
use tinypanel_hub.Store.TelemetryLog.{split_lines, keep_recent, parse_line, scan_loop}

-- The text of some lines, each with its newline.
abbrev pub unlines : List String → String
unlines [] = ""
unlines (l ∷ ls) = String.◌++◌ l (String.◌++◌ "\n" (unlines ls))

-- A text without newlines.
abbrev pub IsLine : String → Type 0
IsLine String.[] = Unit
IsLine (String.◌∷◌ c s) = (nat_eq (code c) 10 ≡ false) × IsLine s

split_lines-line :
    (l rest : String)
    → IsLine l
    → split_lines (String.◌++◌ l (String.◌++◌ "\n" rest)) ≡ l ∷ split_lines rest
unfolding split_lines
split_lines-line String.[] rest h = rw nil-append (rw cons-append (rw nil-append refl))
split_lines-line (String.◌∷◌ c s) rest (e, h) =
    rw cons-append (rw e (rw (split_lines-line s rest h) refl))

pub split_lines-unlines : (ls : List String) → All IsLine ls → split_lines (unlines ls) ≡ ls
unfolding split_lines
split_lines-unlines [] h = refl
split_lines-unlines (l ∷ ls) (e, h) =
    split_lines-line l (unlines ls) e ∙ rw (split_lines-unlines ls h)

pub unlines-append :
    (ls : List String) (l : String)
    → unlines (ls ++ l ∷ []) ≡ String.◌++◌ (String.◌++◌ (unlines ls) l) "\n"
unlines-append [] l = simp nil-append
unlines-append (x ∷ ls) l = simp (unlines-append ls l, text_assoc)

module _ (c : Codec) (limit : ℤ) where
  pub scan_loop-skip :
      (raw : String) (rest : List String) (items : List Telemetry)
      → parse_line c raw ≡ ok none
      → scan_loop c limit (raw ∷ rest) items ≡ scan_loop c limit rest items
  unfolding scan_loop
  scan_loop-skip raw rest items e = rw (e, scan_loop)

  pub scan_loop-item :
      (raw : String) (rest : List String) (items : List Telemetry) (item : Telemetry)
      → parse_line c raw ≡ ok (some item)
      → scan_loop c limit (raw ∷ rest) items
        ≡ scan_loop c limit rest (keep_recent limit (items ++ item ∷ []))
  unfolding scan_loop
  scan_loop-item raw rest items item e = rw (e, scan_loop)

  pub scan_loop-err :
      (raw : String) (rest : List String) (items : List Telemetry) (x : Error)
      → parse_line c raw ≡ err x
      → scan_loop c limit (raw ∷ rest) items ≡ err x
  unfolding scan_loop
  scan_loop-err raw rest items x e = rw (e, scan_loop)

  pub scan_loop-append :
      (xs ys : List String) (items items' : List Telemetry)
      → scan_loop c limit xs items ≡ ok items'
      → scan_loop c limit (xs ++ ys) items ≡ scan_loop c limit ys items'
  unfolding scan_loop
  scan_loop-append [] ys items items' h = ap (scan_loop c limit ys) (ok_eq h)
    where
      ok_eq : {A : Type 0} {a b : A} → ok a ≡ ok b → a ≡ b
      ok_eq q = cc
  scan_loop-append (x ∷ xs) ys items items' h = elim (Result-cases (parse_line c x)) [
    | inr (e, p) ↦ absurd (err_ok (rw (p, scan_loop) at h))
    | inl (none, p) ↦
        scan_loop-skip x (xs ++ ys) items p
        ∙ scan_loop-append xs ys items items' (sym (scan_loop-skip x xs items p) ∙ h)
    | inl (some item, p) ↦
        scan_loop-item x (xs ++ ys) items item p
        ∙ scan_loop-append xs ys _ items' (sym (scan_loop-item x xs items item p) ∙ h)
  ]
    where
      err_ok : {A : Type 0} {a : A} {e : Error} → err e ≡ ok a → ⊥
      err_ok q = cc

  pub scan_loop-append_err :
      (xs ys : List String) (items : List Telemetry) (e : Error)
      → scan_loop c limit xs items ≡ err e
      → scan_loop c limit (xs ++ ys) items ≡ err e
  unfolding scan_loop
  scan_loop-append_err [] ys items e h = cc
  scan_loop-append_err (x ∷ xs) ys items e h = elim (Result-cases (parse_line c x)) [
    | inr (e', p) ↦ scan_loop-err x (xs ++ ys) items e' p ∙ sym (scan_loop-err x xs items e' p) ∙ h
    | inl (none, p) ↦
        scan_loop-skip x (xs ++ ys) items p
        ∙ scan_loop-append_err xs ys items e (sym (scan_loop-skip x xs items p) ∙ h)
    | inl (some item, p) ↦
        scan_loop-item x (xs ++ ys) items item p
        ∙ scan_loop-append_err xs ys _ e (sym (scan_loop-item x xs items item p) ∙ h)
  ]
