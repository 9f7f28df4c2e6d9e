-- ===== src/Store/Devices/Reregistration.antt =====
-- A device that is deleted and registers again (internal/store/devices.go and messages.go).
use tinypanel_hub.Prelude.{
  String, List, [], ◌∷◌, ◌++◌, none, some, ℤ, false, ◌&&◌, ◌==◌, eq_string, eq_int, find?,
  remove_first, ◌≡◌, refl, sym, ap, ◌∙◌, Pairwise, All-mono, find?-test, find?-All, find?-eq-none,
  find?_of_All, find?-append_none, Bool-cases, ==_of_ne, &&_eq_true, eq_iff, eq_refl, inl, inr,
}
use tinypanel_hub.Domain.{Device, DeviceHello}
use tinypanel_hub.Store.State.{Result, ok, StateData, FileStore, Env}
use tinypanel_hub.Store.Commit.{commit-contents}
use tinypanel_hub.Store.Devices.{
  has_id, fresh_device, hello_device, device, is_owned, delete_device, device_by_credentials,
  set_devices,
}
use tinypanel_hub.Store.Devices.Hello.{
  HelloOutcome, rejected, known, registered, hello_device-HelloOutcome,
}
use tinypanel_hub.Store.Devices.Registry.{IsRegistry, DistinctIds}
use tinypanel_hub.Store.Devices.Preservation.{save_hello-devices}
use tinypanel_hub.Store.Messages.{pending_device_messages, collect, is_pending}

find?-remove_first_unique :
    (owner_id device_id : String) (ds : List Device) (d : Device)
    → Pairwise DistinctIds ds
    → find? (is_owned owner_id device_id) ds ≡ some d
    → find? (has_id device_id) (remove_first (is_owned owner_id device_id) ds) ≡ none
find?-remove_first_unique owner_id device_id [] d h e = refl
find?-remove_first_unique owner_id device_id (x ∷ ds) d (q, h) e =
    elim (Bool-cases (is_owned owner_id device_id x)) [
      | inl hit ↦ rw hit (
          find?_of_All (has_id device_id) ds (
            All-mono (DistinctIds x) (λ y. has_id device_id y ≡ false) ds
              (λ y ne.
                ==_of_ne _ _ (λ same. ne ((eq_iff _ _).0 ((&&_eq_true _ _ hit).0) ∙ sym same)))
              q))
      | inr miss ↦
          let later = rw miss at e in
          let id : d.id ≡ device_id =
            (eq_iff _ _).0
              ((&&_eq_true _ _ (find?-test (is_owned owner_id device_id) ds d later)).0) in
          let apart = find?-All (is_owned owner_id device_id) (DistinctIds x) ds d q later in
          rw miss (
            rw (==_of_ne x.id device_id (λ same. apart (same ∙ sym id)))
              (find?-remove_first_unique owner_id device_id ds d h later))
    ]

delete_device_found :
    (env : Env) (owner_id device_id : String) (s : FileStore) {d : Device}
    → device owner_id device_id s ≡ some d
    → (delete_device env owner_id device_id s).0.contents
      ≡ set_devices (remove_first (is_owned owner_id device_id) s.contents.devices) s
unfolding delete_device
delete_device_found env owner_id device_id s e = rw (e, delete_device) (commit-contents env _ s)

-- A device registered under a new identifier can use its secret.
new_credentials :
    (ds : List Device) (device_id secret_hash : String) (d : Device)
    → find? (has_id device_id) ds ≡ none
    → d.id ≡ device_id
    → d.secret_hash ≡ secret_hash
    → find? (λ x. x.id == device_id && x.secret_hash == secret_hash) (ds ++ d ∷ []) ≡ some d
new_credentials ds device_id secret_hash d new id hash =
    find?-append_none _ ds d (
      find?_of_All _ ds (
        All-mono (λ x. has_id device_id x ≡ false)
          (λ x. (x.id == device_id && x.secret_hash == secret_hash) ≡ false) ds (λ x e. rw e)
          (find?-eq-none (has_id device_id) ds new)))
    ∙ rw (id, hash) (rw (eq_refl device_id, eq_refl secret_hash))

-- After an owner has deleted a device, a hello under its identifier with any new secret that is
-- answered registers a device that is let in with this secret, and that is sent the messages that
-- were pending for the deleted one. This is of a well-formed registry.
pub deleted_device_inbox :
    (env env' : Env) (owner_id device_id secret_hash : String) (limit : ℤ) (s s' : FileStore)
    (hello : DeviceHello) {d : Device}
    → IsRegistry s.contents.devices
    → device owner_id device_id s ≡ some d
    → hello_device env' device_id secret_hash (delete_device env owner_id device_id s).0
      ≡ some (s', ok hello)
    → ((d' : Device) × (device_by_credentials device_id secret_hash s' ≡ some d'))
      × (pending_device_messages device_id limit s' ≡ pending_device_messages device_id limit s)
unfolding device device_by_credentials pending_device_messages fresh_device
deleted_device_inbox env env' owner_id device_id secret_hash limit s s' hello {d} h found e =
    by_outcome (
      hello_device-HelloOutcome env' device_id secret_hash
        (delete_device env owner_id device_id s).0 _ e)
  where
    removed :
        (delete_device env owner_id device_id s).0.contents
        ≡ set_devices (remove_first (is_owned owner_id device_id) s.contents.devices) s
    removed = delete_device_found env owner_id device_id s found

    gone :
        find? (has_id device_id) (delete_device env owner_id device_id s).0.contents.devices ≡ none
    gone =
        rw removed (find?-remove_first_unique owner_id device_id s.contents.devices d h.ids found)

    some-none : {A : Type 0} {a : A} → some a ≡ none → ⊥
    some-none q = cc

    by_outcome :
        HelloOutcome env' device_id secret_hash
          (delete_device env owner_id device_id s).0
          (s', ok hello)
        → ((d' : Device) × (device_by_credentials device_id secret_hash s' ≡ some d'))
          × (pending_device_messages device_id limit s' ≡ pending_device_messages device_id limit s)
    by_outcome (rejected x was other q) = absurd (some-none (sym was ∙ gone))
    by_outcome (known x x' was same seen q) = absurd (some-none (sym was ∙ gone))
    by_outcome (registered code new drawn q) =
        let stored =
          ap (λ (r : FileStore × Result DeviceHello). r.0.contents) q
          ∙ save_hello-devices env' _ _ (delete_device env owner_id device_id s).0 in
        let sent = λ (x : StateData). collect (is_pending device_id) limit [] x.messages in
        (
          (
            _,
            ap
                  (λ (x : StateData).
                    find? (λ y. y.id == device_id && y.secret_hash == secret_hash) x.devices)
                  stored
                ∙ new_credentials _ device_id secret_hash _ new refl refl,
          ),
          ap sent stored ∙ ap sent removed,
        )
