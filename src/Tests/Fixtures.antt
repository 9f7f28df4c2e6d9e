-- ===== src/Tests/Fixtures.antt =====
-- A small store: one user with a bound device, a device that waits, messages and todos.
use tinypanel_hub.Prelude.{
  String, [], ◌∷◌, Option, none, some, ℤ, pos, negsuc, true, false, if◌then◌else◌, ◌==◌, eq_string,
  eq_int, refl, arith, ne_of_==, inl, inr,
}
use tinypanel_hub.Domain.{Message, Todo, Device, Telemetry, Time}
use tinypanel_hub.Store.State.{ok, StateData, FileStore, Env}
use tinypanel_hub.Store.State.{Codec, SaveFaults, AppendFaults}
use tinypanel_hub.Store.Messages.Inbox.{IsInbox}
use tinypanel_hub.Store.Todos.Invariant.{IsTodoList}
use tinypanel_hub.Store.Devices.Registry.{IsRegistry}

abbrev pub alice : String
alice = "usr_a"

abbrev pub bob : String
bob = "usr_b"

abbrev pub panel : Device
panel = record {
  id = "panel";
  owner_id = alice;
  name = "desk";
  secret_hash = "h1";
  bind_code = "";
  bind_code_expires_at = none;
  bound_at = some 5;
  last_seen_at = some 5;
  created_at = 1;
}

abbrev pub spare : Device
spare = record {
  id = "spare";
  owner_id = "";
  name = "";
  secret_hash = "h2";
  bind_code = "111111";
  bind_code_expires_at = some 1000;
  bound_at = none;
  last_seen_at = some 5;
  created_at = 2;
}

abbrev message : ℤ → String → String → Option Time → Message
message id device_id status acked_at = record {
  id = id;
  owner_id = alice;
  device_id = device_id;
  author_id = alice;
  body = "hello";
  priority = "normal";
  status = status;
  created_at = 3;
  acked_at = acked_at;
}

abbrev pub chore : Todo
chore = record {
  id = pos 1;
  owner_id = alice;
  text = "water";
  status = pos 0;
  version = pos 1;
  created_at = 3;
  updated_at = 3;
}

abbrev pub sample_data : StateData
sample_data = record {
  next_message_id = pos 4;
  next_todo_id = pos 2;
  weather = record {
    location = "unknown";
    condition = "unknown";
    icon = "";
    temperature = 0;
    humidity = 0;
    updated_at = 1;
    hourly = [];
    daily = [];
  };
  users = [];
  devices = panel ∷ spare ∷ [];
  messages =
      message (pos 1) "panel" "acked" (some 4)
      ∷ message (pos 2) "panel" "pending" none
      ∷ message (pos 3) "other" "pending" none
      ∷ [];
  todos = chore ∷ [];
}

abbrev pub sample_telemetry : Telemetry
sample_telemetry = record {
  id = pos 1;
  schema_version = pos 1;
  device_id = "panel";
  boot_id = "boot";
  sequence = pos 7;
  report_timestamp = 9;
  uptime_seconds = pos 3;
  power = record {
    battery = record {
      raw_adc = pos 0;
      raw_voltage_mv = pos 0;
      voltage_mv = pos 0;
      percentage = 0;
      status = "full";
    };
    usb_connected = true;
  };
  environment = record { shtc3 = record { temperature_c = 0; humidity_rh = 0; sensor_ok = true } };
  network = record { wifi_connected = true; ssid = "net"; rssi_dbm = negsuc 60; ip = "10.0.0.2" };
  system = record { free_heap_bytes = pos 1; free_psram_bytes = pos 1; ntp_sync = true };
  storage = record { sd_card_present = false; sd_card_total_mb = pos 0; sd_card_used_mb = pos 0 };
  app = some [];
  received_at = 9;
}

-- A codec that knows one state and one record.
abbrev pub codec : Codec
codec = record {
  encode_state = λ _. ok "state";
  decode_state = λ _ _. ok sample_data;
  encode_telemetry = λ _. ok "record";
  decode_telemetry = λ _. ok sample_telemetry;
}

abbrev pub save_fine : SaveFaults
save_fine = record { mkdir_fails = none; write_fails = none; rename_fails = none }

abbrev pub append_fine : AppendFaults
append_fine = record {
  mkdir_fails = none;
  open_fails = none;
  write_fails = none;
  newline_fails = none;
}

abbrev pub env : Env
env = record {
  codec = codec;
  now = 100;
  codes = "111111" ∷ "222222" ∷ [];
  hex = "00ff";
  save_faults = save_fine;
  append_faults = append_fine;
  scan_fails = none;
}

abbrev pub store : FileStore
store = record {
  contents = sample_data;
  state_path = "state.json";
  telemetry_path = "log.jsonl";
  next_telemetry_id = pos 2;
  files = λ p. if p == "log.jsonl" then some "record\n" else none;
}

pub sample-IsInbox : IsInbox (pos 4) sample_data.messages
sample-IsInbox = record {
  within = omega arith;
  increasing = omega arith;
  below = omega arith;
  statuses = (inr (refl, (4, refl)), (inl (refl, refl), (inl (refl, refl), tt)));
}

pub sample-IsTodoList : IsTodoList (pos 2) sample_data.todos
sample-IsTodoList = record { increasing = omega arith; below = omega arith; versions = omega arith }

pub sample-IsRegistry : IsRegistry sample_data.devices
sample-IsRegistry = record {
  ids = ((ne_of_== "panel" "spare" refl, tt), (tt, tt));
  codes = ((λ e. absurd (ne_of_== "" "111111" refl e), tt), (tt, tt));
  phases = (
    inr (ne_of_== alice "" refl, refl, refl, (5, refl)),
    (inl (refl, ne_of_== "111111" "" refl, refl, (1000, refl)), tt),
  );
}
