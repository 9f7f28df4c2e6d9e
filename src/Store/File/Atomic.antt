-- ===== src/Store/File/Atomic.antt =====
-- `stateFile.save` (internal/store/state.go) replaces the state file whole or not at all.
use tinypanel_hub.Prelude.{
  String, Option, none, some, eq_string, eq_int, ◌≡◌, refl, ap, arith, Option-cases, ==_of_ne,
  eq_refl, ◌≢◌, inl, inr,
}
use tinypanel_hub.Store.State.{Error, ok, FileStore}
use Prim.Native.String.{count}
use text.Mathlib.TextLemmas.{length-append as count-append}
use tinypanel_hub.Store.State.{Result-cases, Codec, SaveFaults, put_file}
use tinypanel_hub.Store.File.{save, write_and_rename, tmp_path, set_files, rename_file}

tmp_path_ne : (path : String) → path ≢ tmp_path path
tmp_path_ne path e = absurd (
    omega (
      arith,
      ap (λ (s : String). count s) e,
      count-append path ".tmp",
      (λ (q : count ".tmp" ≡ 4). q) refl,
    ))

-- The files after a save: what it reports, the state file, and all but the temporary file.
pub record SaveIsAtomic (c : Codec) (s s' : FileStore) (e : Option Error) : Type 0 where
  pub saved :
      e ≡ none
      → (b : String) × (c.encode_state s.contents ≡ ok b) × (s'.files s.state_path ≡ some b)
  pub kept : e ≢ none → s'.files s.state_path ≡ s.files s.state_path
  pub others : (p : String) → p ≢ s.state_path → p ≢ tmp_path s.state_path → s'.files p ≡ s.files p

some-none : {A : Type 0} {a : A} → some a ≡ none → ⊥
some-none q = cc

same-SaveIsAtomic : (c : Codec) (s : FileStore) (e : Error) → SaveIsAtomic c s s (some e)
same-SaveIsAtomic c s e = record {
  saved = λ q. absurd (some-none q);
  kept = λ _. refl;
  others = λ p _ _. refl;
}

-- Only the temporary file has been written.
tmp-SaveIsAtomic :
    (c : Codec) (s : FileStore) (left : Option String) (e : Error)
    → SaveIsAtomic c s (set_files (put_file (tmp_path s.state_path) left s.files) s) (some e)
tmp-SaveIsAtomic c s left e = record {
  saved = λ q. absurd (some-none q);
  kept = λ _. rw (==_of_ne _ _ (tmp_path_ne s.state_path));
  others = λ p _ other. rw (==_of_ne _ _ other);
}

renamed-SaveIsAtomic :
    (c : Codec) (s : FileStore) (b : String)
    → c.encode_state s.contents ≡ ok b
    → let tmp = tmp_path s.state_path in
      SaveIsAtomic c s
        (set_files (rename_file tmp s.state_path (put_file tmp (some b) s.files)) s)
        none
renamed-SaveIsAtomic c s b enc = record {
  saved = λ _. (
    b,
    enc,
    rw (==_of_ne _ _ (tmp_path_ne s.state_path))
        (rw (eq_refl s.state_path, eq_refl (tmp_path s.state_path))),
  );
  kept = λ q. absurd (q refl);
  others = λ p other tmp. rw (==_of_ne _ _ tmp) (rw (==_of_ne _ _ other));
}

write_and_rename-SaveIsAtomic :
    (c : Codec) (f : SaveFaults) (b : String) (s : FileStore)
    → c.encode_state s.contents ≡ ok b
    → let (s', e) = write_and_rename f b s in SaveIsAtomic c s s' e
unfolding write_and_rename
write_and_rename-SaveIsAtomic c f b s enc = elim (Option-cases f.write_fails) [
  | inr ((e, left), w) ↦ rw (w, write_and_rename) (tmp-SaveIsAtomic c s left e)
  | inl w ↦ elim (Option-cases f.rename_fails) [
    | inr (e, r) ↦ rw (w, write_and_rename) (rw r (tmp-SaveIsAtomic c s (some b) e))
    | inl r ↦ rw (w, write_and_rename) (rw r (renamed-SaveIsAtomic c s b enc))
  ]
]

-- A save that reports no error has put the encoding of the whole state in place of the state file;
-- one that reports an error has left the state file as it was, at whichever step it failed; and
-- either way no file but the state file and its temporary file is changed.
pub save-SaveIsAtomic :
    (c : Codec) (f : SaveFaults) (s : FileStore) → let (s', e) = save c f s in SaveIsAtomic c s s' e
unfolding save
save-SaveIsAtomic c f s = elim (Option-cases f.mkdir_fails) [
  | inr (e, m) ↦ rw (m, save) (same-SaveIsAtomic c s e)
  | inl m ↦ elim (Result-cases (c.encode_state s.contents)) [
    | inr (e, enc) ↦ rw (m, save) (rw enc (same-SaveIsAtomic c s e))
    | inl (b, enc) ↦ rw (m, save) (rw enc (write_and_rename-SaveIsAtomic c f b s enc))
  ]
]
