-- ===== src/Sftp/Server/Runtime.antt =====
-- crates/russh-extra/src/sftp/server.rs: the state `SftpServerRuntime`, and how a handler's error
-- becomes a status response.
use russh_extra.Base.{ℕ, Bytes, Text, Bool, false, List, [], ◌∷◌}
use russh_extra.Base.Text.{text}
use russh_extra.Base.Assoc.{insert, remove, contains_key}
use russh_extra.Core.Error.{Error, Result, SftpErrorKind}
use russh_extra.Sftp.Status.{
  fx_failure, fx_no_such_file, fx_permission_denied, fx_op_unsupported, fx_bad_message,
}
use russh_extra.Sftp.Response.{encode_status_response}
use russh_extra.Sftp.Handler.{SftpServerHandler}

-- The surroundings of the runtime: the handler, the text of an error as its derived `Display` gives
-- it, and `russh`'s session, whose `data` says whether the write was accepted.
pub record Surroundings (S T : Type 0) : Type 0 where
  pub handler : SftpServerHandler S
  pub display : Error → Text
  pub session_data : ℕ → Bytes → T → Bool × T

-- `handler_state` is what the shared handler holds. A channel id is a number.
pub record SftpServerRuntime (S : Type 0) : Type 0 where
  pub handler_state : S
  pub buffers : List (ℕ × Bytes)
  pub channels : List (ℕ × Unit {0})
  pub negotiated : Bool
  pub version : ℕ

unfoldable pub new_runtime : {S : Type 0} → S → SftpServerRuntime S
new_runtime s = record {
  handler_state = s;
  buffers = [];
  channels = [];
  negotiated = false;
  version = 3;
}

unfoldable pub register_channel : {S : Type 0} → ℕ → SftpServerRuntime S → SftpServerRuntime S
register_channel channel rt = record rt {
  channels = insert channel tt rt.channels;
  buffers = insert channel [] rt.buffers;
}

unfoldable pub is_sftp_channel : {S : Type 0} → SftpServerRuntime S → ℕ → Bool
is_sftp_channel rt channel = contains_key rt.channels channel

unfoldable pub handle_channel_close : {S : Type 0} → ℕ → SftpServerRuntime S → SftpServerRuntime S
handle_channel_close channel rt = record rt {
  channels = remove channel rt.channels;
  buffers = remove channel rt.buffers;
}

-- The status code of an error kind, and the message for an error without one.
unfoldable pub status_of_kind : SftpErrorKind → ℕ × Text
status_of_kind SftpErrorKind.no_such_file = (fx_no_such_file, text "no such file")
status_of_kind SftpErrorKind.permission_denied = (fx_permission_denied, text "permission denied")
status_of_kind SftpErrorKind.unsupported = (fx_op_unsupported, text "unsupported operation")
status_of_kind SftpErrorKind.protocol = (fx_bad_message, text "protocol error")
status_of_kind SftpErrorKind.unsupported_version = (fx_failure, text "unsupported version")
status_of_kind SftpErrorKind.channel_io = (fx_failure, text "channel I/O error")
status_of_kind SftpErrorKind.remote_status = (fx_failure, text "internal error")
status_of_kind SftpErrorKind.unexpected_response = (fx_failure, text "internal error")

-- `if msg.is_empty() { default_msg } else { msg }`
abbrev pub or_default : Text → Text → Text
or_default [] default_msg = default_msg
or_default (b ∷ bs) default_msg = b ∷ bs

unfoldable pub sftp_status_from_error : (Error → Text) → Error → ℕ × Text
sftp_status_from_error display (Error.sftp e) =
    let (code, default_msg) = status_of_kind e.kind in (code, or_default e.message default_msg)
sftp_status_from_error display e = (fx_failure, display e)

unfoldable pub sftp_error_status : (Error → Text) → ℕ → Error → Bytes
sftp_error_status display id e =
    let (code, message) = sftp_status_from_error display e in encode_status_response id code message

-- A call on the runtime, `async fn(&mut self, …) -> Result<A>`.
abbrev pub Served : Type 0 → Type 0 → Type 0
Served S A = SftpServerRuntime S → Result A × SftpServerRuntime S
