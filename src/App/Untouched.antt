-- ===== src/App/Untouched.antt =====
-- What a start of cmd/tinypanel-hub does to the files.
use tinypanel_hub.Prelude.{==_of_ne}
use tinypanel_hub.Store.State.{Files, put_file}
use tinypanel_hub.App.{EtcFaults, example_path, write_example, ensure_etc, Machine, start}
use tinypanel_hub.Prelude.{
  String, Option, none, some, eq_string, eq_int, eq_nat, ◌≡◌, sym, ap, ◌∙◌, Option-cases, ==_of_ne,
  inl, inr,
}
use tinypanel_hub.Store.State.{Result, Result-cases}

some-none : {A : Type 0} {a : A} → some a ≡ none → ⊥
some-none e = cc

module _ (o : EtcFaults) (p b : String) (files : Files) (there : files p ≡ some b) where
  module _ (empty : files example_path ≡ none) where
    kept : (left : Option String) → put_file example_path left files p ≡ some b
    kept left =
        rw (==_of_ne p example_path (λ same. some-none (sym there ∙ ap files same ∙ empty))) there

    write_example-files : (text : String) → (write_example o text files).0 p ≡ some b
    unfolding write_example
    write_example-files text = elim (Option-cases o.write_fails) [
      | inl e ↦ rw (e, write_example) (kept (some text))
      | inr ((x, left), e) ↦ rw (e, write_example) (kept left)
    ]

  ensure_etc-files : (embedded : Result String) → (ensure_etc o embedded files).0 p ≡ some b
  unfolding ensure_etc
  ensure_etc-files embedded = elim (Option-cases o.mkdir_fails) [
    | inr (x, e) ↦ rw (e, ensure_etc) there
    | inl e ↦ elim (Option-cases o.stat_fails) [
      | inr (x, f) ↦ rw (e, ensure_etc) (rw f there)
      | inl f ↦ elim (Option-cases (files example_path)) [
        | inr (old, g) ↦ rw (e, ensure_etc) (rw f (rw g there))
        | inl g ↦ elim (Result-cases embedded) [
          | inr (x, k) ↦ rw (e, ensure_etc) (rw f (rw g (rw k there)))
          | inl (text, k) ↦ rw (e, ensure_etc) (rw f (rw g (rw k (write_example-files g text))))
        ]
      ]
    ]
  ]

-- A start leaves every file that is there as it is, whichever of its steps fails: an example of the
-- configuration that is there already is never overwritten.
pub start-files :
    (m : Machine) (files : Files) (p b : String) → files p ≡ some b → (start m files).0 p ≡ some b
unfolding start
start-files m files p b there = elim (Option-cases (ensure_etc m.etc_faults m.embedded files).1) [
  | inl e ↦ rw (e, start) (ensure_etc-files m.etc_faults p b files there m.embedded)
  | inr (x, e) ↦ rw (e, start) (ensure_etc-files m.etc_faults p b files there m.embedded)
]
