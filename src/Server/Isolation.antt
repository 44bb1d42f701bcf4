-- ===== src/Server/Isolation.antt =====
-- crates/russh-extra/src/server.rs: what a session keeps for each of its channels.
use russh_extra.Base.{ℕ, ◌≡◌, ◌==◌, ap, ◌∙◌, Bytes, Text, some, [], ◌∷◌, arith, if◌then◌else◌, ◌≢◌}
use russh_extra.Base.Text.{bytes_eq, bytes_eq_sound, bytes_eq_refl}
use russh_extra.Base.Assoc.{lookup-insert, lookup-remove}
use russh_extra.Sftp.Response as Response
use russh_extra.Server.Context.{Env}
use russh_extra.Server.Runtime.{ServerSession}
use russh_extra.Server.Channels.{env_of, set_env, close_channel}
use russh_extra.Server.Exec.{route_for, exec_context}

-- `HashMap::get` behind `HashMap::insert`, of variables.
route_for-insert :
    (name key : Text) (value : Text) (env : Env)
    → route_for name (Response.insert key value env)
      ≡ (if bytes_eq key name then some value else route_for name env)
unfolding route_for Response.insert
route_for-insert name key value [] = ground arith
route_for-insert name key value ((k, v) ∷ env) = ground (
  arith,
  route_for-insert name key value env,
  bytes_eq_sound k key,
  bytes_eq_sound k name,
  bytes_eq_sound key name,
  bytes_eq_refl name,
)

module _ {S F : Type 0} (st : ServerSession S F) where
  env_of-set_env :
      (channel other : ℕ) (key value : Text)
      → env_of (set_env channel key value st) other ≡ (
          if channel == other
          then Response.insert key value (env_of st channel)
          else env_of st other)
  unfolding env_of set_env
  env_of-set_env channel other key value = ground (
    arith,
    lookup-insert channel other (Response.insert key value (env_of st channel)) st.env_vars,
  )

  env_of-close_channel :
      (channel other : ℕ)
      → env_of (close_channel channel st) other ≡ (if channel == other then [] else env_of st other)
  unfolding env_of close_channel
  env_of-close_channel channel other = ground (arith, lookup-remove channel other st.env_vars)

  -- A variable that is set on a channel is what an exec on that channel finds under its name,
  -- next to the variables that were there, and changes no other channel's environment; closing a
  -- channel empties its environment and no other.
  pub exec_context-set_env :
      (channel other : ℕ) (key value name : Text) (command : Bytes) (username : Text)
      → (route_for name (exec_context (set_env channel key value st) channel command username).env
          ≡ (if bytes_eq key name
              then some value
              else route_for name (exec_context st channel command username).env))
        × (channel ≢ other
            → (exec_context (set_env channel key value st) other command username).env
              ≡ (exec_context st other command username).env)
        × ((exec_context (close_channel channel st) channel command username).env ≡ [])
        × (channel ≢ other
            → (exec_context (close_channel channel st) other command username).env
              ≡ (exec_context st other command username).env)
  unfolding exec_context
  exec_context-set_env channel other key value name command username = (
    ap (route_for name) (env_of-set_env channel channel key value ∙ ground arith)
        ∙ route_for-insert name key value (env_of st channel),
    λ h. env_of-set_env channel other key value ∙ ground arith,
    env_of-close_channel channel channel ∙ ground arith,
    λ h. env_of-close_channel channel other ∙ ground arith,
  )
