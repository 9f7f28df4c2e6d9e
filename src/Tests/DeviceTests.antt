-- ===== src/Tests/DeviceTests.antt =====
-- The devices of internal/store, and its sequences of operations, at concrete inputs.
use tinypanel_hub.Prelude.{none, some, pos, false, eq_string, eq_int, ◌≡◌, refl, ne_of_==}
use tinypanel_hub.Domain.{Device, DeviceHello}
use tinypanel_hub.Store.State.{Env, ok, FileStore}
use tinypanel_hub.Store.Commit.{commit}
use tinypanel_hub.Store.File.{new_state_data, default_weather}
use tinypanel_hub.Store.File.{save}
use tinypanel_hub.Store.Messages.{pending_device_messages}
use tinypanel_hub.Store.Devices.{
  device, devices, hello_device, bind_device, update_device, delete_device, device_by_credentials,
}
use tinypanel_hub.Store.Devices.Isolation.{devices_isolated}
use tinypanel_hub.Store.Devices.Reregistration.{deleted_device_inbox}
use tinypanel_hub.Tests.Fixtures.{alice, bob, panel, env, store, sample-IsRegistry}

abbrev sent : DeviceHello
sent = record {
  device_id = "new";
  device_secret = "";
  bound = false;
  name = "";
  bind_code = "222222";
  bind_code_ttl = pos 600;
  server_time = 100;
  bound_at = none;
}

devices_isolated_example :
    (devices alice (bind_device env bob "111111" "x" store).0 ≡ devices alice store)
    × (devices alice (update_device env bob "panel" "x" store).0 ≡ devices alice store)
    × (devices alice (delete_device env bob "panel" store).0 ≡ devices alice store)
devices_isolated_example =
    devices_isolated env bob alice "111111" "panel" "x" store (ne_of_== bob alice refl)
      (ne_of_== alice "" refl)

-- Ten minutes after the hello
abbrev ten_minutes_later : Env
ten_minutes_later = record env { now = 600_000_000_100 }

found_panel : device alice "panel" store ≡ some panel
unfolding device
found_panel = refl

re_registered :
    (r : FileStore × DeviceHello) × (hello_device env "panel" "h9"
        (delete_device env alice "panel" store).0
      ≡ some (r.0, ok r.1))
unfolding hello_device device delete_device commit save new_state_data default_weather
re_registered = (_, refl)

deleted_device_inbox_example :
    ((d' : Device) × (device_by_credentials "panel" "h9" re_registered.0.0 ≡ some d'))
    × (pending_device_messages "panel" (pos 10) re_registered.0.0
        ≡ pending_device_messages "panel" (pos 10) store)
deleted_device_inbox_example =
    deleted_device_inbox env env alice "panel" "h9" (pos 10) store re_registered.0.0
      re_registered.0.1 sample-IsRegistry found_panel re_registered.1
