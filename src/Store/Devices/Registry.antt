-- ===== src/Store/Devices/Registry.antt =====
-- The invariant of the devices of internal/store/devices.go, and that each operation keeps it.
use tinypanel_hub.Prelude.{
  List, [], ◌∷◌, ◌++◌, none, some, Bool, false, ◌==◌, eq_string, eq_int, find?, update_first,
  remove_first, ◌≡◌, sym, All, Pairwise, All-append, All-remove_first, All-mono, Pairwise-append,
  Pairwise-remove_first, find?-eq-none, All-update_first, Pairwise-update_first,
  Pairwise-update_first_fresh, ne_of_==, ◌≢◌, ◌⊎◌,
}
use tinypanel_hub.Domain.{Device, Time, after}
use tinypanel_hub.Store.Devices.{has_id}

abbrev pub DistinctIds : Device → Device → Type 0
DistinctIds a b = a.id ≢ b.id

-- Only the empty code is on two devices.
abbrev pub DistinctCodes : Device → Device → Type 0
DistinctCodes a b = a.bind_code ≡ b.bind_code → a.bind_code ≡ ""

-- A device waits for an owner, with a bind code that ends some time, or has one, and no code.
abbrev pub HasPhase : Device → Type 0
HasPhase d =
    ((d.owner_id ≡ "")
      × (d.bind_code ≢ "")
      × (d.bound_at ≡ none)
      × ((t : Time) × (d.bind_code_expires_at ≡ some t)))
    ⊎ ((d.owner_id ≢ "")
        × (d.bind_code ≡ "")
        × (d.bind_code_expires_at ≡ none)
        × ((t : Time) × (d.bound_at ≡ some t)))

pub record IsRegistry (ds : List Device) : Type 0 where
  pub ids : Pairwise DistinctIds ds
  pub codes : Pairwise DistinctCodes ds
  pub phases : All HasPhase ds

pub fresh_code-DistinctCodes :
    (ds : List Device) (d : Device)
    → All (λ (a : Device). a.bind_code ≢ d.bind_code) ds
    → All (DistinctCodes d) ds × All (λ a. DistinctCodes a d) ds
fresh_code-DistinctCodes ds d h = (
  All-mono (λ (a : Device). a.bind_code ≢ d.bind_code) (DistinctCodes d) ds
      (λ a q e. absurd (q (sym e))) h,
  All-mono (λ (a : Device). a.bind_code ≢ d.bind_code) (λ a. DistinctCodes a d) ds
      (λ a q e. absurd (q e)) h,
)

-- Registering a device under a new identifier, with a code that no device has.
pub append-IsRegistry :
    (ds : List Device) (d : Device)
    → find? (has_id d.id) ds ≡ none
    → All (λ (a : Device). a.bind_code ≢ d.bind_code) ds
    → HasPhase d
    → IsRegistry ds
    → IsRegistry (ds ++ d ∷ [])
append-IsRegistry ds d new_id new_code phase h = record {
  ids = Pairwise-append DistinctIds ds d h.ids (
      All-mono (λ (a : Device). (a.id == d.id) ≡ false) (λ a. DistinctIds a d) ds
        (λ a q. ne_of_== a.id d.id q) (find?-eq-none (has_id d.id) ds new_id));
  codes = Pairwise-append DistinctCodes ds d h.codes ((fresh_code-DistinctCodes ds d new_code).1);
  phases = All-append HasPhase ds (d ∷ []) h.phases (phase, tt);
}

-- Changing a device that keeps its identifier and its code.
module _ (p : Device → Bool) (ds : List Device) (d d' : Device) (found : find? p ds ≡ some d)
    (same_id : d'.id ≡ d.id) (phase : HasPhase d') (h : IsRegistry ds) where
  change-ids : Pairwise DistinctIds (update_first p (λ _. d') ds)
  change-ids =
      Pairwise-update_first p DistinctIds ds d d' found (λ y q. rw same_id q) (λ y q. rw same_id q)
        h.ids

  pub keep_code-IsRegistry : d'.bind_code ≡ d.bind_code → IsRegistry (update_first p (λ _. d') ds)
  keep_code-IsRegistry same = record {
    ids = change-ids;
    codes =
        Pairwise-update_first p DistinctCodes ds d d' found (λ y q. rw same q) (λ y q. rw same q)
          h.codes;
    phases = All-update_first p HasPhase ds d' h.phases phase;
  }

  pub fresh_code-IsRegistry :
      All (DistinctCodes d') ds
      → All (λ a. DistinctCodes a d') ds
      → IsRegistry (update_first p (λ _. d') ds)
  fresh_code-IsRegistry after before = record {
    ids = change-ids;
    codes = Pairwise-update_first_fresh p DistinctCodes ds d' after before h.codes;
    phases = All-update_first p HasPhase ds d' h.phases phase;
  }

pub remove-IsRegistry :
    (p : Device → Bool) (ds : List Device) → IsRegistry ds → IsRegistry (remove_first p ds)
remove-IsRegistry p ds h = record {
  ids = Pairwise-remove_first DistinctIds p ds h.ids;
  codes = Pairwise-remove_first DistinctCodes p ds h.codes;
  phases = All-remove_first HasPhase p ds h.phases;
}
