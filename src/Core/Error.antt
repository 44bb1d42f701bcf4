-- ===== src/Core/Error.antt =====
-- crates/russh-extra-core/src/error.rs: the error type of the workspace, its categories and
-- constructors, and `Result`.
use russh_extra.Base.{ℕ, Text, Bool, Option, none, some, is_some}

-- A boxed source error: the text that it displays.
pub record BoxError : Type 0 where
  pub shown : Text

pub record CategoryError (K : Type 0) : Type 0 where
  pub kind : K
  pub message : Text
  pub source : Option BoxError

-- `CategoryError::new`
unfoldable pub category_error : {K : Type 0} → K → Text → CategoryError K
category_error kind message = record { kind = kind; message = message; source = none }

-- `CategoryError::with_boxed_source`
unfoldable pub category_error_with_source : {K : Type 0} → K → Text → BoxError → CategoryError K
category_error_with_source kind message source = record {
  kind = kind;
  message = message;
  source = some source;
}

unfoldable pub has_source : {K : Type 0} → CategoryError K → Bool
has_source e = is_some e.source

pub data TransportErrorKind : Type 0 where
  dns tcp_connect negotiation keepalive encryption io other : TransportErrorKind

pub data HostKeyErrorKind : Type 0 where
  unknown changed rejected unsupported unavailable : HostKeyErrorKind

pub data AuthenticationErrorKind : Type 0 where
  rejected exhausted partial unsupported_method unavailable : AuthenticationErrorKind

pub data ChannelErrorKind : Type 0 where
  open_kind request read write eof close protocol : ChannelErrorKind

pub data SftpErrorKind : Type 0 where
  remote_status protocol channel_io unexpected_response unsupported_version unsupported :
      SftpErrorKind
  no_such_file permission_denied : SftpErrorKind

pub data ForwardingErrorKind : Type 0 where
  bind listen accept connect global_request channel_open stream_copy cancel : ForwardingErrorKind
  shutdown : ForwardingErrorKind

pub data Operation : Type 0 where
  connect authentication channel_open command shell sftp forwarding server : Operation
  shutdown other : Operation

pub data SshErrorKind : Type 0 where
  russh other : SshErrorKind

-- channel.rs: how a remote command ended.
pub data CommandExit : Type 0 where
  status : ℕ → CommandExit
  signal : Text → Bool → CommandExit
  missing : CommandExit

-- What the code reads of a `std::io::Error`: its text, and whether its kind is `TimedOut`.
pub record IoError : Type 0 where
  pub shown : Text
  pub timed_out : Bool

pub data Error : Type 0 where
  invalid_config : Text → Error
  transport : CategoryError TransportErrorKind → Error
  host_key : CategoryError HostKeyErrorKind → Error
  authentication : CategoryError AuthenticationErrorKind → Error
  channel : CategoryError ChannelErrorKind → Error
  command_exit : CommandExit → Error
  sftp : CategoryError SftpErrorKind → Error
  forwarding : CategoryError ForwardingErrorKind → Error
  timeout : CategoryError Operation → Error
  cancelled : CategoryError Operation → Error
  disconnected : CategoryError Operation → Error
  unsupported : Text → Error
  io : IoError → Error
  ssh : CategoryError SshErrorKind → Error

pub data Result {ℓ} (A : Type ℓ) : Type ℓ where
  ok : A → Result A
  err : Error → Result A

-- `Error::sftp`
unfoldable pub sftp_error : SftpErrorKind → Text → Error
unfolding category_error
sftp_error kind message = Error.sftp (category_error kind message)
