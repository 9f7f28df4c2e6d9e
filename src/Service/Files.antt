-- ===== src/Service/Files.antt =====
-- The store of internal/store as the one of the services.
use tinypanel_hub.Store.State.{FileStore}
use tinypanel_hub.Store.Users.{user_by_token_hash, user_by_id, create_user}
use tinypanel_hub.Store.Devices.{
  device_by_credentials, device, devices, hello_device, bind_device, update_device, delete_device,
}
use tinypanel_hub.Store.Messages.{
  device_messages, add_device_message, pending_device_messages, ack_device_messages,
}
use tinypanel_hub.Store.Todos.{todos, todo, add_todo, update_todo, delete_todo}
use tinypanel_hub.Store.Telemetry.{telemetry, device_telemetry, add_telemetry, snapshot, weather}
use tinypanel_hub.Service.Interface.{
  Store, UserStore, DeviceStore, TodoStore, MessageStore, TelemetryStore,
}

abbrev pub file_messages : MessageStore FileStore
file_messages = record {
  device_messages = device_messages;
  add_device_message = add_device_message;
  pending_device_messages = pending_device_messages;
  ack_device_messages = ack_device_messages;
}

abbrev pub file_telemetries : TelemetryStore FileStore
file_telemetries = record {
  telemetry = telemetry;
  device_telemetry = device_telemetry;
  add_telemetry = add_telemetry;
}

abbrev pub file_users : UserStore FileStore
file_users = record {
  user_by_token_hash = user_by_token_hash;
  user = user_by_id;
  create_user = create_user;
}

abbrev pub file_devices : DeviceStore FileStore
file_devices = record {
  device_by_credentials = device_by_credentials;
  device = device;
  devices = devices;
  hello_device = hello_device;
  bind_device = bind_device;
  update_device = update_device;
  delete_device = delete_device;
}

abbrev pub file_todos : TodoStore FileStore
file_todos = record {
  todos = todos;
  todo = todo;
  add_todo = add_todo;
  update_todo = update_todo;
  delete_todo = delete_todo;
}

abbrev pub file_store : Store FileStore
file_store = record {
  snapshots = record { snapshot = snapshot };
  weathers = record { weather = weather };
  users = file_users;
  devices = file_devices;
  messages = file_messages;
  todos = file_todos;
  telemetries = file_telemetries;
}
