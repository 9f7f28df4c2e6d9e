-- ===== src/Store/Devices/Hello.antt =====
-- The outcomes of `HelloDevice` (internal/store/devices.go), case by case.
use tinypanel_hub.Prelude.{
  String, List, [], ◌∷◌, ◌++◌, none, some, Bool, true, false, not, ◌==◌, eq_string, eq_int, find?,
  update_first, ◌≡◌, sym, arith, All, In, All-In, All-mono, find?-test, find?-In, find?-eq-none,
  any-eq-false, any_of_All, some_eq, Bool-cases, Option-cases, ==_of_ne, ne_of_==, eq_iff, ◌≢◌, inl,
  inr,
}
use tinypanel_hub.Domain.{Device, DeviceHello}
use tinypanel_hub.Store.State.{invalid_device_secret, Result, err, FileStore, Env}
use mathlib.Core.Option
use tinypanel_hub.Store.Devices.{
  has_id, bind_code_exists, unique_bind_code, seen_device, fresh_device, save_hello, hello_device,
  needs_code, with_code,
}

-- The code that `uniqueBindCode` returns is one of the draws, and no device has it.
pub unique_bind_code_lem :
    (draws : List String) (ds : List Device) (code : String)
    → unique_bind_code draws ds ≡ some code
    → In code draws × All (λ (d : Device). d.bind_code ≢ code) ds
unfolding unique_bind_code bind_code_exists
unique_bind_code_lem draws ds code h =
    let unused = find?-test (λ c. not (bind_code_exists c ds)) draws code h in
    (
      find?-In (λ c. not (bind_code_exists c ds)) draws code h,
      All-mono (λ (d : Device). (d.bind_code == code) ≡ false) (λ (d : Device). d.bind_code ≢ code)
          ds (λ d e. ne_of_== d.bind_code code e)
          (any-eq-false (λ (d : Device). d.bind_code == code) ds (ground arith)),
    )

-- A code that no device has and that is drawn ends the loop of `uniqueBindCode`.
pub unique_bind_code_total :
    (draws : List String) (ds : List Device) (code : String)
    → In code draws
    → All (λ (d : Device). d.bind_code ≢ code) ds
    → (c : String) × (unique_bind_code draws ds ≡ some c)
unfolding unique_bind_code bind_code_exists
unique_bind_code_total draws ds code i h =
    let unused =
      any_of_All (λ (d : Device). d.bind_code == code) ds
        (All-mono (λ (d : Device). d.bind_code ≢ code)
          (λ (d : Device). (d.bind_code == code) ≡ false) ds (λ d e. ==_of_ne d.bind_code code e)
          h) in
    elim (Option-cases (unique_bind_code draws ds)) [
      | inr found ↦ found
      | inl nothing ↦ absurd (
          not_false (bind_code_exists code ds)
            (All-In (λ c. not (bind_code_exists c ds) ≡ false) code draws
              (find?-eq-none (λ c. not (bind_code_exists c ds)) draws nothing) i)
            unused)
    ]
  where
    not_false : (b : Bool) → not b ≡ false → b ≡ false → ⊥
    not_false true p q = cc
    not_false false p q = cc

-- The device `d`, seen at a hello, becomes `d'`.
pub data Seen (env : Env) (ds : List Device) (d d' : Device) : Type 0 where
  kept :
      needs_code env.now d ≡ false
      → d' ≡ record d { last_seen_at = some (env.now) }
      → Seen env ds d d'
  renewed :
      (code : String)
      → needs_code env.now d ≡ true
      → unique_bind_code env.codes ds ≡ some code
      → d' ≡ with_code env.now code (record d { last_seen_at = some (env.now) })
      → Seen env ds d d'

pub seen_device-Seen :
    (env : Env) (ds : List Device) (d d' : Device)
    → seen_device env ds d ≡ some d'
    → Seen env ds d d'
unfolding seen_device
seen_device-Seen env ds d d' h = elim (Bool-cases (needs_code env.now d)) [
  | inr e ↦ kept e (sym (some_eq (rw e at h)))
  | inl e ↦
      let (code, found, same) = (Option.map-eq-some_iff _ _).0 (rw e at h) in
      renewed code e found (sym same)
]

-- What `HelloDevice` does where it returns `r`.
pub data HelloOutcome (env : Env) (device_id secret_hash : String) (s : FileStore)
    (r : FileStore × Result DeviceHello) : Type 0 where
  rejected :
      (d : Device)
      → find? (has_id device_id) s.contents.devices ≡ some d
      → d.secret_hash ≢ secret_hash
      → r ≡ (s, err invalid_device_secret)
      → HelloOutcome env device_id secret_hash s r
  known :
      (d d' : Device)
      → find? (has_id device_id) s.contents.devices ≡ some d
      → d.secret_hash ≡ secret_hash
      → Seen env s.contents.devices d d'
      → r ≡ save_hello env d' (update_first (has_id device_id) (λ _. d') s.contents.devices) s
      → HelloOutcome env device_id secret_hash s r
  registered :
      (code : String)
      → find? (has_id device_id) s.contents.devices ≡ none
      → unique_bind_code env.codes s.contents.devices ≡ some code
      → (let d = fresh_device env.now device_id secret_hash code in
          r ≡ save_hello env d (s.contents.devices ++ d ∷ []) s)
      → HelloOutcome env device_id secret_hash s r

pub hello_device-HelloOutcome :
    (env : Env) (device_id secret_hash : String) (s : FileStore)
    (r : FileStore × Result DeviceHello)
    → hello_device env device_id secret_hash s ≡ some r
    → HelloOutcome env device_id secret_hash s r
unfolding hello_device
hello_device-HelloOutcome env device_id secret_hash s r h =
    elim (Option-cases (find? (has_id device_id) s.contents.devices)) [
      | inl e ↦
          let (code, found, same) = (Option.map-eq-some_iff _ _).0 (rw (e, hello_device) at h) in
          registered code e found (sym same)
      | inr (d, e) ↦ elim (Bool-cases (d.secret_hash == secret_hash)) [
        | inl same ↦
            let (d', seen, e') =
              (Option.map-eq-some_iff _ _).0 (rw same at (rw (e, hello_device) at h)) in
            known d d' e ((eq_iff _ _).0 same) (seen_device-Seen env s.contents.devices d d' seen)
              (sym e')
        | inr other ↦
            rejected d e (ne_of_== _ _ other)
              (sym (some_eq (rw other at (rw (e, hello_device) at h))))
      ]
    ]
