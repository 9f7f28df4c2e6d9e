-- ===== src/Service/Messages.antt =====
-- internal/service/messages.go
use tinypanel_hub.Prelude.{String, List, [], ◌∷◌, Option, none, ℤ, Bool, ◌&&◌, ◌==◌, length, eq_nat}
use tinypanel_hub.Domain.{Message}
use tinypanel_hub.Store.State.{Error, Env}
use tinypanel_hub.Service.Interface.{MessageStore}

pub record MessageAckBatchResult : Type 0 where
  pub device_id : String
  pub acked_ids : List ℤ
  pub missing_ids : List ℤ

module _ {S : Type 0} (store : MessageStore S) where
  abbrev pub list : ℤ → S → List Message
  list limit s = []

  abbrev pub get : ℤ → S → Option Message
  get id s = none

  abbrev pub device_messages : String → String → ℤ → S → List Message
  device_messages owner_id device_id limit s = store.device_messages owner_id device_id limit s

  abbrev pub create :
      Env → String → String → String → String → String → S → S × Message × Option Error
  create env owner_id device_id author_id body priority s =
      store.add_device_message env owner_id device_id author_id body priority s

  unfoldable pub ack : Env → String → ℤ → S → S × Bool × Option Error
  ack env device_id message_id s =
      let (s', acked, missing, e) = store.ack_device_messages env device_id (message_id ∷ []) s in
      (s', length acked == 1 && length missing == 0, e)

  abbrev pub pending : String → ℤ → S → List Message
  pending device_id limit s = store.pending_device_messages device_id limit s

  abbrev pub ack_batch : Env → String → List ℤ → S → S × MessageAckBatchResult × Option Error
  ack_batch env device_id message_ids s =
      let (s', acked, missing, e) = store.ack_device_messages env device_id message_ids s in
      (s', record { device_id = device_id; acked_ids = acked; missing_ids = missing }, e)
