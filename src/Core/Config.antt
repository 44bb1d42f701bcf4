-- ===== src/Core/Config.antt =====
-- crates/russh-extra-core/src/config.rs: the configuration of a server.
use russh_extra.Base.{ℕ, Text}
use russh_extra.Base.Text.{text}
use russh_extra.Core.Endpoint.{Endpoint}

pub record ServerConfig : Type 0 where
  pub listen : Endpoint
  pub server_id : Text
  pub max_sessions : ℕ

-- `ServerConfig::default`
unfoldable pub default_server_config : ServerConfig
default_server_config = record {
  listen = record { host = text "127.0.0.1"; port = 0 };
  server_id = text "SSH-2.0-russh-extra";
  max_sessions = 1024;
}
