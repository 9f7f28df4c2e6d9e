-- ===== src/Service/Users.antt =====
-- internal/service/users.go
use tinypanel_hub.Prelude.{String, Option}
use tinypanel_hub.Domain.{User}
use tinypanel_hub.Store.State.{Error, Env}
use tinypanel_hub.Service.Interface.{UserStore}

module _ {S : Type 0} (store : UserStore S) where
  abbrev pub by_token_hash : String → S → Option User
  by_token_hash token_hash s = store.user_by_token_hash token_hash s

  abbrev pub get : String → S → Option User
  get id s = store.user id s

  abbrev pub create : Env → String → String → String → S → S × User × Option Error
  create env name email token_hash s = store.create_user env name email token_hash s
