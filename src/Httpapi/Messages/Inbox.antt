-- ===== src/Httpapi/Messages/Inbox.antt =====
-- What a device reads from its inbox (internal/httpapi/messages.go).
use tinypanel_hub.Httpapi.Request.{
  Request, Response, inbox_body, write_json, write_error, valid, reply, query_int, query_int_lem,
  Checked-cases, reply_valid, reply_eq,
}
use tinypanel_hub.Httpapi.Auth.{Server, require_device_auth}
use tinypanel_hub.Httpapi.Auth.Admission.{require_device_auth_lem}
use tinypanel_hub.Httpapi.Messages.{handle_device_messages, serve_inbox}
use tinypanel_hub.Prelude.{take, All-take, All-filter_test, pos_part}
use tinypanel_hub.Store.Messages.{pending_device_messages, is_pending}
use tinypanel_hub.Store.Devices.{device_by_credentials}
use tinypanel_hub.Store.Messages.Listing.{pending_device_messages_lem}
use tinypanel_hub.Prelude.{
  ℕ, zero, suc, ◌≤◌, String, List, [], ◌∷◌, ℤ, pos, negsuc, true, ◌||◌, ◌==◌, eq_string, eq_int,
  eq_nat, ltb_ℤ, length, filter, ◌≡◌, refl, sym, ◌∙◌, arith, All, Bool-cases, Option-cases, eq_iff,
  ◌⊎◌, inl, inr, ◌≤ℤ◌,
}
use tinypanel_hub.Domain.{Message, Device, message_status_pending}
use tinypanel_hub.Store.State.{FileStore}

-- A message that waits for a device.
abbrev pub WaitsFor : String → Message → Type 0
WaitsFor device_id m = (m.device_id ≡ device_id) × (m.status ≡ message_status_pending)

length-take : {A : Type 0} (n : ℕ) (xs : List A) → length (take n xs) ≤ n
length-take zero xs = omega arith
length-take (suc n) [] = omega arith
length-take (suc n) (x ∷ xs) = omega (arith, length-take n xs)

length-window :
    (limit : ℤ) (ms : List Message)
    → pos 1 ≤ℤ limit
    → limit ≤ℤ pos 100
    → length (take (pos_part limit) ms) ≤ 100
length-window (pos n) ms low high = omega (arith, length-take n ms)
length-window (negsuc n) ms low high = absurd (omega arith)

pending-WaitsFor :
    (device_id : String) (limit : ℤ) (s : FileStore)
    → pos 1 ≤ℤ limit
    → limit ≤ℤ pos 100
    → All (WaitsFor device_id) (pending_device_messages device_id limit s)
      × (length (pending_device_messages device_id limit s) ≤ 100)
pending-WaitsFor device_id limit s low high =
    let waiting = filter (is_pending device_id) s.contents.messages in
    let positive : ltb_ℤ (pos 0) limit ≡ true = ground arith in
    let listed : pending_device_messages device_id limit s ≡ take (pos_part limit) waiting =
      pending_device_messages_lem device_id limit s ∙ rw positive refl in
    rw listed (
      All-take (WaitsFor device_id) (pos_part limit) waiting (
          All-filter_test (WaitsFor device_id) (is_pending device_id) s.contents.messages (λ m test.
            ground
              (arith, test, eq_iff m.device_id device_id, eq_iff m.status message_status_pending))),
      length-window limit waiting low high,
    )

pub require_device_auth-reply :
    (server : Server) (r : Request) (s : FileStore) (x : Response)
    → require_device_auth server r s ≡ reply x
    → x ≡ write_error 401 "missing or invalid device credentials"
unfolding require_device_auth
require_device_auth-reply server r s x h =
    let id = r.header "X-Device-ID" in
    let secret = r.header "X-Device-Secret" in
    elim (Bool-cases (id == "" || secret == "")) [
      | inl e ↦ sym (reply_eq (rw (e, require_device_auth) at h))
      | inr e ↦ elim (Option-cases (device_by_credentials id (server.token_hash secret) s)) [
        | inl f ↦ sym (reply_eq (rw f at rw (e, require_device_auth) at h))
        | inr (d, f) ↦ absurd (reply_valid (sym (rw f at rw (e, require_device_auth) at h)))
      ]
    ]

-- Every request for an inbox, whatever its headers and its limit, is refused with 401, or is let in
-- as the device that it names and answered by at most 100 messages, all of them pending ones of
-- this device.
pub serve_inbox_lem :
    (server : Server) (r : Request) (s : FileStore)
    → (serve_inbox server r s ≡ write_error 401 "missing or invalid device credentials")
      ⊎ ((d : Device) × (ms : List Message) × (require_device_auth server r s ≡ valid d)
          × (serve_inbox server r s ≡ write_json 200 (inbox_body (r.header "X-Device-ID") ms))
          × All (WaitsFor (r.header "X-Device-ID")) ms
          × (length ms ≤ 100))
unfolding serve_inbox handle_device_messages
serve_inbox_lem server r s = elim (Checked-cases (require_device_auth server r s)) [
  | inr (x, e) ↦ inl (rw (e, serve_inbox) (require_device_auth-reply server r s x e))
  | inl (d, e) ↦
      let (secret, named, hashed) = require_device_auth_lem server r s d e in
      let (low, high) =
        query_int_lem r "limit" (pos 10) (pos 1) (pos 100) (omega arith) (omega arith) in
      let limit = query_int r "limit" (pos 10) (pos 1) (pos 100) in
      let (waiting, few) = pending-WaitsFor (r.header "X-Device-ID") limit s low high in
      inr (
        d,
        pending_device_messages (r.header "X-Device-ID") limit s,
        e,
        rw (e, serve_inbox) (rw named refl),
        waiting,
        few,
      )
]
