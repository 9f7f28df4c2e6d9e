-- ===== src/Store/Users.antt =====
-- internal/store/users.go
use Prim.Native.String
use tinypanel_hub.Prelude.{
  String, [], ◌∷◌, ◌++◌, Option, if◌then◌else◌, ◌==◌, eq_string, eq_int, find?, trim_space,
}
use tinypanel_hub.Domain.{User}
use tinypanel_hub.Store.State.{Error, FileStore, Env}
use tinypanel_hub.Store.Commit.{commit}

unfoldable pub user_by_token_hash : String → FileStore → Option User
user_by_token_hash token_hash s = find? (λ u. u.api_token_hash == token_hash) s.contents.users

unfoldable pub user_by_id : String → FileStore → Option User
user_by_id id s = find? (λ u. u.id == id) s.contents.users

abbrev pub name_or_user : String → String
name_or_user name = if name == "" then "user" else name

-- The user that `CreateUser` builds.
unfoldable pub new_user : Env → String → String → String → User
new_user env name email token_hash = record {
  id = String.◌++◌ "usr_" env.hex;
  name = name_or_user (trim_space name);
  email = trim_space email;
  api_token_hash = token_hash;
  created_at = env.now;
}

unfoldable pub create_user :
    Env → String → String → String → FileStore → FileStore × User × Option Error
create_user env name email token_hash s =
    let user = new_user env name email token_hash in
    let (s', e) = commit env (record (s.contents) { users = s.contents.users ++ user ∷ [] }) s in
    (s', user, e)
