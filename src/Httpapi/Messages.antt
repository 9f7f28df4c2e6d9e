-- ===== src/Httpapi/Messages.antt =====
-- internal/httpapi/messages.go: the message handlers.
pub mod Inbox
use tinypanel_hub.Service.Devices as DeviceService
use tinypanel_hub.Service.Messages as MessageService
use tinypanel_hub.Service.Files.{file_devices, file_messages}
use tinypanel_hub.Httpapi.Request.{
  Decoder, Request, Response, message_body, messages_body, inbox_body, ack_body, write_json,
  write_error, write_store_error, Checked, valid, reply, json_body, path_string, query_int,
}
use tinypanel_hub.Httpapi.Auth.{Server, require_device_auth}
use tinypanel_hub.Store.Devices.{device}
use tinypanel_hub.Store.Messages.{device_messages}
use tinypanel_hub.Prelude.{
  String, List, none, some, ℤ, pos, not, ◌&&◌, if◌then◌else◌, ◌==◌, ◌!=◌, eq_string, eq_int, eq_nat,
  ltb, leb_ℤ, length, any, trim_space,
}
use tinypanel_hub.Domain.{User, Device, message_priority_normal, message_priority_high}
use tinypanel_hub.Store.State.{FileStore, Env}

pub record CreateMessage : Type 0 where
  pub body : String
  pub priority : String

pub record AckMessages : Type 0 where
  pub message_ids : List ℤ

pub record MessageJson : Type 0 where
  pub create_message_json : Decoder CreateMessage
  pub ack_messages_json : Decoder AckMessages

-- `handleListDeviceMessages`
unfoldable pub handle_list_device_messages : Request → User → FileStore → Response
unfolding write_error query_int
handle_list_device_messages r user s =
    let device_id = path_string r "device_id" in
    elim (DeviceService.get file_devices user.id device_id s) [
      | none ↦ write_error 404 "device not found"
      | some _ ↦
          let limit = query_int r "limit" (pos 50) (pos 1) (pos 100) in
          write_json 200
            (messages_body (MessageService.device_messages file_messages user.id device_id limit s))
    ]

abbrev pub priority_or_normal : String → String
priority_or_normal priority =
    if trim_space priority == "" then message_priority_normal else trim_space priority

-- The body and the priority that `handleCreateDeviceMessage` goes on with.
unfoldable pub checked_message : CreateMessage → Checked (String × String)
unfolding write_error
checked_message req =
    let body = trim_space req.body in
    let priority = priority_or_normal req.priority in
    if body == ""
    then reply (write_error 400 "body is required")
    else if priority != message_priority_normal && priority != message_priority_high
    then reply (write_error 400 "priority must be normal or high")
    else valid (body, priority)

-- The end of `handleCreateDeviceMessage`
unfoldable pub create_message :
    Env → User → String → String → String → FileStore → FileStore × Response
unfolding write_error
create_message env user device_id body priority s =
    let (s', m, e) =
      MessageService.create file_messages env user.id device_id user.id body priority s in
    elim e [ some _ ↦ (s', write_store_error) | none ↦ (s', write_json 201 (message_body m)) ]

-- `handleCreateDeviceMessage`
unfoldable pub handle_create_device_message :
    MessageJson → Env → Request → User → FileStore → FileStore × Response
unfolding json_body write_error checked_message create_message
handle_create_device_message json env r user s =
    let device_id = path_string r "device_id" in
    elim (DeviceService.get file_devices user.id device_id s) [
      | none ↦ (s, write_error 404 "device not found")
      | some _ ↦ elim (json_body json.create_message_json r) [
        | reply x ↦ (s, x)
        | valid req ↦ elim (checked_message req) [
          | reply x ↦ (s, x)
          | valid (body, priority) ↦ create_message env user device_id body priority s
        ]
      ]
    ]

-- `handleDeviceMessages`
unfoldable pub handle_device_messages : Request → Device → FileStore → Response
unfolding query_int
handle_device_messages r device s =
    let limit = query_int r "limit" (pos 10) (pos 1) (pos 100) in
    write_json 200 (inbox_body device.id (MessageService.pending file_messages device.id limit s))

-- The checks of `handleDeviceAckMessages`
unfoldable pub checked_ids : List ℤ → Checked (List ℤ)
unfolding write_error
checked_ids ids =
    if length ids == 0
    then reply (write_error 400 "message_ids is required")
    else if ltb 100 (length ids)
    then reply (write_error 400 "message_ids must not exceed 100 items")
    else if any (λ id. leb_ℤ id (pos 0)) ids
    then reply (write_error 400 "message_ids must contain positive integers")
    else valid ids

-- `handleDeviceAckMessages`
unfoldable pub handle_device_ack_messages :
    MessageJson → Env → Request → Device → FileStore → FileStore × Response
unfolding json_body checked_ids write_error
handle_device_ack_messages json env r device s = elim (json_body json.ack_messages_json r) [
  | reply x ↦ (s, x)
  | valid req ↦ elim (checked_ids req.message_ids) [
    | reply x ↦ (s, x)
    | valid ids ↦
        let (s', result, e) = MessageService.ack_batch file_messages env device.id ids s in
        elim e [
          | some _ ↦ (s', write_store_error)
          | none ↦
              (s', write_json 200 (ack_body result.device_id result.acked_ids result.missing_ids))
        ]
  ]
]

-- `GET /device/messages` behind `requireDeviceAuth`
unfoldable pub serve_inbox : Server → Request → FileStore → Response
unfolding handle_device_messages
serve_inbox server r s = elim (require_device_auth server r s) [
  | reply x ↦ x
  | valid d ↦ handle_device_messages r d s
]

-- `POST /device/messages/ack` behind `requireDeviceAuth`
unfoldable pub serve_ack : Server → MessageJson → Env → Request → FileStore → FileStore × Response
unfolding handle_device_ack_messages
serve_ack server json env r s = elim (require_device_auth server r s) [
  | reply x ↦ (s, x)
  | valid d ↦ handle_device_ack_messages json env r d s
]
