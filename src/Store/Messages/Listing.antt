-- ===== src/Store/Messages/Listing.antt =====
-- What the listing methods of internal/store/messages.go return.
use tinypanel_hub.Prelude.{
  true, All, All-filter_test, All-take, Bool-cases, inl, inr, pos_part, ℕ, zero, suc, ◌+◌, String,
  List, [], ◌∷◌, ◌++◌, reverse, ℤ, pos, negsuc, Bool, false, ◌&&◌, if◌then◌else◌, ◌==◌, eq_string,
  eq_int, ltb_ℤ, length, take, filter, ◌≡◌, refl, sym, ◌∙◌, arith, pos_part, length-append,
}
use tinypanel_hub.Store.State.{FileStore}
use mathlib.Core.List.{append_assoc, append-nil}
use tinypanel_hub.Store.Messages.{
  collect, reached, device_messages, pending_device_messages, is_pending,
}

-- The first `limit` entries, or all where the limit is not positive.
abbrev pub limited : {A : Type 0} → ℤ → List A → List A
limited limit xs = if ltb_ℤ (pos 0) limit then take (pos_part limit) xs else xs

module _ {A : Type 0} (keep : A → Bool) where
  collect-cons :
      (limit : ℤ) (out : List A) (x : A) (xs : List A)
      → collect keep limit out (x ∷ xs) ≡ (
          if keep x
          then (if reached limit (out ++ x ∷ [])
              then out ++ x ∷ []
              else collect keep limit (out ++ x ∷ []) xs)
          else collect keep limit out xs)
  unfolding collect
  collect-cons limit out x xs = ground arith

  collect_unlimited :
      (limit : ℤ) (out xs : List A)
      → ltb_ℤ (pos 0) limit ≡ false
      → collect keep limit out xs ≡ out ++ filter keep xs
  unfolding collect
  collect_unlimited limit out [] h = sym (append-nil out)
  collect_unlimited limit out (x ∷ xs) h = ground (
    arith,
    collect_unlimited limit (out ++ x ∷ []) xs h,
    collect_unlimited limit out xs h,
    append_assoc out (x ∷ []) (filter keep xs),
  )

  -- `room` entries still fit.
  collect_limited :
      (n room : ℕ) (out xs : List A)
      → n ≡ length out + suc room
      → collect keep (pos n) out xs ≡ out ++ take (suc room) (filter keep xs)
  unfolding collect
  collect_limited n room out [] h = sym (append-nil out)
  collect_limited n zero out (x ∷ xs) h =
      ground (arith, collect_limited n zero out xs h, length-append out (x ∷ []))
  collect_limited n (suc r) out (x ∷ xs) h = ground (
    arith,
    collect_limited n (suc r) out xs h,
    collect_limited n r (out ++ x ∷ []) xs,
    length-append out (x ∷ []),
    append_assoc out (x ∷ []) (take (suc r) (filter keep xs)),
  )

  -- The loop returns the first `limit` entries that pass the test.
  pub collect_lem :
      (limit : ℤ) (xs : List A) → collect keep limit [] xs ≡ limited limit (filter keep xs)
  collect_lem (pos zero) xs = collect_unlimited (pos 0) [] xs refl
  collect_lem (pos (suc n)) xs = collect_limited (suc n) n [] xs (omega arith) ∙ ground arith
  collect_lem (negsuc n) xs = ground (arith, collect_unlimited (negsuc n) [] xs (ground arith))

-- What the loop of the listings keeps passes its test.
pub collect-All :
    {A : Type 0} (P : A → Type 0) (keep : A → Bool) (limit : ℤ) (xs : List A)
    → ((x : A) → keep x ≡ true → P x)
    → All P (collect keep limit [] xs)
collect-All {A = A} P keep limit xs h =
    let kept = All-filter_test P keep xs h in
    rw (collect_lem keep limit xs) (by_limit (filter keep xs) kept)
  where
    by_limit : (ys : List A) → All P ys → All P (limited limit ys)
    by_limit ys k = elim (Bool-cases (ltb_ℤ (pos 0) limit)) [
      | inl e ↦ rw e (All-take P (pos_part limit) ys k)
      | inr e ↦ rw e k
    ]

-- A listing of a device's messages by its owner is the newest first: of the messages of that owner
-- and device, in reverse order of arrival, the first `limit`, or all if the limit is not positive.
pub device_messages_lem :
    (owner_id device_id : String) (limit : ℤ) (s : FileStore)
    → device_messages owner_id device_id limit s
      ≡ limited limit (
          filter
            (λ m. m.owner_id == owner_id && m.device_id == device_id)
            (reverse s.contents.messages))
unfolding device_messages
device_messages_lem owner_id device_id limit s = collect_lem _ limit (reverse s.contents.messages)

-- What a device fetches is the oldest first: of its pending messages, in order of arrival, the
-- first `limit`, or all if the limit is not positive.
pub pending_device_messages_lem :
    (device_id : String) (limit : ℤ) (s : FileStore)
    → pending_device_messages device_id limit s
      ≡ limited limit (filter (is_pending device_id) s.contents.messages)
unfolding pending_device_messages
pending_device_messages_lem device_id limit s = collect_lem _ limit s.contents.messages
