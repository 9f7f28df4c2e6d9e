-- ===== src/Store/Reachable/Named.antt =====
-- The users of internal/store stay, and keep identifiers that are not empty.
use Prim.Native.String
use Prim.Native.Char.{Char}
use text.Mathlib.TextLemmas.{cons-append}
use mathlib.Core.List.{append_assoc, append-nil}
use tinypanel_hub.Store.Commit.{commit-contents}
use tinypanel_hub.Store.Users.{create_user, new_user}
use tinypanel_hub.Store.Todos.{todo, update_todo, delete_todo, add_todo, add_todo_data}
use tinypanel_hub.Store.Messages.{add_device_message, push_message, ack_device_messages}
use tinypanel_hub.Store.Reachable.{
  Step, users, hello, bind, rename, unregister, add, patch, delete, send, ack, report, Reach, here,
  next,
}
use tinypanel_hub.Store.Reachable.Devices.{
  hello_device-OnlyDevices, bind_device-OnlyDevices, update_device-OnlyDevices,
  delete_device-OnlyDevices,
}
use tinypanel_hub.Store.Reachable.Invariant.{add_telemetry-contents}
use tinypanel_hub.Prelude.{
  ℕ, String, ℤ, Bool, true, false, ◌==◌, eq_string, eq_int, eq_nat, ◌≡◌, refl, sym, ap, ◌∙◌, List,
  [], ◌∷◌, ◌++◌, All, All-append, Bool-cases, Option-cases, ◌≢◌, inl, inr,
}
use tinypanel_hub.Domain.{TodoPatch, User}
use tinypanel_hub.Store.State.{StateData, FileStore, Env}

abbrev pub IsNamed : FileStore → Type 0
IsNamed s = All (λ (u : User). u.id ≢ "") s.contents.users

abbrev SameUsers : FileStore → FileStore → Type 0
SameUsers s s' = s'.contents.users ≡ s.contents.users

abbrev has_start : String → Bool
has_start String.[] = false
has_start (String.◌∷◌ c s) = true

true-false : true ≡ false → ⊥
true-false e = cc

append-nonempty : (c : Char) (s t : String) → String.◌++◌ (String.◌∷◌ c s) t ≢ ""
append-nonempty c s t e = true-false (ap has_start (sym (cons-append c s t) ∙ e))

id-nonempty : (hex : String) → String.◌++◌ "usr_" hex ≢ ""
id-nonempty hex e = append-nonempty _ _ hex e

create_user-IsNamed :
    (env : Env) (name email token_hash : String) (s : FileStore)
    → IsNamed s
    → IsNamed (create_user env name email token_hash s).0
unfolding create_user new_user
create_user-IsNamed env name email token_hash s h =
    rw (commit-contents env _ s)
      (All-append (λ (u : User). u.id ≢ "") s.contents.users _ h (id-nonempty env.hex, tt))

update_todo-users :
    (env : Env) (owner_id : String) (id version : ℤ) (p : TodoPatch) (s : FileStore)
    → SameUsers s (update_todo env owner_id id version p s).0
unfolding update_todo
update_todo-users env owner_id id version p s = elim (Option-cases (todo owner_id id s)) [
  | inl e ↦ rw (e, update_todo) refl
  | inr (t, e) ↦ elim (Bool-cases (t.version == version)) [
    | inl same ↦ rw (e, update_todo) (rw same (rw (commit-contents env _ s) refl))
    | inr other ↦ rw (e, update_todo) (rw other refl)
  ]
]

delete_todo-users :
    (env : Env) (owner_id : String) (id version : ℤ) (s : FileStore)
    → SameUsers s (delete_todo env owner_id id version s).0
unfolding delete_todo
delete_todo-users env owner_id id version s = elim (Option-cases (todo owner_id id s)) [
  | inl e ↦ rw (e, delete_todo) refl
  | inr (t, e) ↦ elim (Bool-cases (t.version == version)) [
    | inl same ↦ rw (e, delete_todo) (rw same (rw (commit-contents env _ s) refl))
    | inr other ↦ rw (e, delete_todo) (rw other refl)
  ]
]

add_todo-users :
    (env : Env) (owner_id text : String) (status : ℤ) (s : FileStore)
    → SameUsers s (add_todo env owner_id text status s).0
unfolding add_todo add_todo_data
add_todo-users env owner_id text status s = rw (commit-contents env _ s) refl

add_device_message-users :
    (env : Env) (owner_id device_id author_id body priority : String) (s : FileStore)
    → SameUsers s (add_device_message env owner_id device_id author_id body priority s).0
unfolding add_device_message push_message
add_device_message-users env owner_id device_id author_id body priority s =
    rw (commit-contents env _ s) refl

ack_device_messages-users :
    (env : Env) (device_id : String) (ids : List ℤ) (s : FileStore)
    → SameUsers s (ack_device_messages env device_id ids s).0
unfolding ack_device_messages
ack_device_messages-users env device_id ids s = rw (commit-contents env _ s) refl

-- The users of the second state are those of the first, and after them more.
abbrev pub MoreUsers : FileStore → FileStore → Type 0
MoreUsers s s' = (extra : List User) × (s'.contents.users ≡ s.contents.users ++ extra)

create_user-MoreUsers :
    (env : Env) (name email token_hash : String) (s : FileStore)
    → MoreUsers s (create_user env name email token_hash s).0
unfolding create_user
create_user-MoreUsers env name email token_hash s =
    ((create_user env name email token_hash s).1 ∷ [], rw (commit-contents env _ s) refl)

SameUsers-MoreUsers : (s s' : FileStore) {t : FileStore} → s' ≡ t → SameUsers s t → MoreUsers s s'
SameUsers-MoreUsers s s' e h =
    ([], ap (λ (x : FileStore). x.contents.users) e ∙ h ∙ sym (append-nil s.contents.users))

-- No step takes a user away.
pub Step-MoreUsers : (s s' : FileStore) → Step s s' → MoreUsers s s'
Step-MoreUsers s s' (users env name email token_hash e) =
    rw e (create_user-MoreUsers env name email token_hash s)
Step-MoreUsers s s' (hello env device_id secret_hash r codes q e) =
    SameUsers-MoreUsers s s' e
      (ap (λ (x : StateData). x.users) (hello_device-OnlyDevices env s device_id secret_hash r q))
Step-MoreUsers s s' (bind env owner_id bind_code name owner e) =
    SameUsers-MoreUsers s s' e
      (ap (λ (x : StateData). x.users) (bind_device-OnlyDevices env s owner_id bind_code name))
Step-MoreUsers s s' (rename env owner_id device_id name e) =
    SameUsers-MoreUsers s s' e
      (ap (λ (x : StateData). x.users) (update_device-OnlyDevices env s owner_id device_id name))
Step-MoreUsers s s' (unregister env owner_id device_id e) =
    SameUsers-MoreUsers s s' e
      (ap (λ (x : StateData). x.users) (delete_device-OnlyDevices env s owner_id device_id))
Step-MoreUsers s s' (add env owner_id text status e) =
    SameUsers-MoreUsers s s' e (add_todo-users env owner_id text status s)
Step-MoreUsers s s' (patch env owner_id id version p e) =
    SameUsers-MoreUsers s s' e (update_todo-users env owner_id id version p s)
Step-MoreUsers s s' (delete env owner_id id version e) =
    SameUsers-MoreUsers s s' e (delete_todo-users env owner_id id version s)
Step-MoreUsers s s' (send env owner_id device_id author_id body priority e) =
    SameUsers-MoreUsers s s' e
      (add_device_message-users env owner_id device_id author_id body priority s)
Step-MoreUsers s s' (ack env device_id ids e) =
    SameUsers-MoreUsers s s' e (ack_device_messages-users env device_id ids s)
Step-MoreUsers s s' (report env t e) =
    SameUsers-MoreUsers s s' e (ap (λ (x : StateData). x.users) (add_telemetry-contents env t s))

pub Reach-MoreUsers : (s : FileStore) (n : ℕ) (s' : FileStore) → Reach s n s' → MoreUsers s s'
Reach-MoreUsers s n s' here = ([], sym (append-nil s.contents.users))
Reach-MoreUsers s n s' (next {n = k} {t = t} r step) =
    let (first, p) = Reach-MoreUsers s k t r in
    let (second, q) = Step-MoreUsers t s' step in
    (first ++ second, q ∙ rw p (append_assoc s.contents.users first second))

-- No step takes a user's identifier away.
pub Step-IsNamed : (s s' : FileStore) → Step s s' → IsNamed s → IsNamed s'
Step-IsNamed s s' (users env name email token_hash e) h =
    rw e (create_user-IsNamed env name email token_hash s h)
Step-IsNamed s s' (hello env device_id secret_hash r codes q e) h = rw e (
    rw (ap (λ (x : StateData). x.users) (hello_device-OnlyDevices env s device_id secret_hash r q))
      h)
Step-IsNamed s s' (bind env owner_id bind_code name owner e) h =
    rw e (
      rw (ap (λ (x : StateData). x.users) (bind_device-OnlyDevices env s owner_id bind_code name))
        h)
Step-IsNamed s s' (rename env owner_id device_id name e) h = rw e (
    rw (ap (λ (x : StateData). x.users) (update_device-OnlyDevices env s owner_id device_id name))
      h)
Step-IsNamed s s' (unregister env owner_id device_id e) h =
    rw e
      (rw (ap (λ (x : StateData). x.users) (delete_device-OnlyDevices env s owner_id device_id)) h)
Step-IsNamed s s' (add env owner_id text status e) h =
    rw e (rw (add_todo-users env owner_id text status s) h)
Step-IsNamed s s' (patch env owner_id id version p e) h =
    rw e (rw (update_todo-users env owner_id id version p s) h)
Step-IsNamed s s' (delete env owner_id id version e) h =
    rw e (rw (delete_todo-users env owner_id id version s) h)
Step-IsNamed s s' (send env owner_id device_id author_id body priority e) h =
    rw e (rw (add_device_message-users env owner_id device_id author_id body priority s) h)
Step-IsNamed s s' (ack env device_id ids e) h =
    rw e (rw (ack_device_messages-users env device_id ids s) h)
Step-IsNamed s s' (report env t e) h =
    rw e (rw (ap (λ (x : StateData). x.users) (add_telemetry-contents env t s)) h)

pub Reach-IsNamed : (s : FileStore) (n : ℕ) (s' : FileStore) → Reach s n s' → IsNamed s → IsNamed s'
Reach-IsNamed s n s' here h = h
Reach-IsNamed s n s' (next {n = k} {t = t} r step) h =
    Step-IsNamed t s' step (Reach-IsNamed s k t r h)
