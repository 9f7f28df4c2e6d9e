-- ===== src/Service/Devices.antt =====
-- internal/service/devices.go
use tinypanel_hub.Prelude.{String, List, Option, Bool}
use tinypanel_hub.Domain.{Device, DeviceHello}
use tinypanel_hub.Store.State.{Error, Result, Env}
use tinypanel_hub.Store.Devices.{BindResult}
use tinypanel_hub.Service.Interface.{DeviceStore}

module _ {S : Type 0} (store : DeviceStore S) where
  abbrev pub by_credentials : String → String → S → Option Device
  by_credentials device_id secret_hash s = store.device_by_credentials device_id secret_hash s

  abbrev pub hello : Env → String → String → S → Option (S × Result DeviceHello)
  hello env device_id secret_hash s = store.hello_device env device_id secret_hash s

  abbrev pub list : String → S → List Device
  list owner_id s = store.devices owner_id s

  abbrev pub get : String → String → S → Option Device
  get owner_id device_id s = store.device owner_id device_id s

  abbrev pub bind : Env → String → String → String → S → S × BindResult
  bind env owner_id bind_code name s = store.bind_device env owner_id bind_code name s

  abbrev pub update : Env → String → String → String → S → S × Option (Result Device)
  update env owner_id device_id name s = store.update_device env owner_id device_id name s

  abbrev pub delete : Env → String → String → S → S × Bool × Option Error
  delete env owner_id device_id s = store.delete_device env owner_id device_id s
