-- ===== src/Shell/Open.antt =====
-- crates/russh-extra/src/shell.rs: the builders, `Shell::open` and `Subsystem::open`. A PTY with its
-- modes is opaque; the channel is a function on a state.
use russh_extra.Base.{
  ℕ, ◌+◌, ◌/◌, ◌%◌, ltb, Bytes, Text, Bool, true, false, Option, none, some, List, [], ◌∷◌, ◌++◌,
  if◌then◌else◌,
}
use russh_extra.Base.Text.{text}
use russh_extra.Client.Command.{ChannelMsg, failure}
use russh_extra.Core.Error.{
  Error, Result, ok, err, BoxError, ChannelErrorKind, Operation, category_error,
  category_error_with_source,
}
use russh_extra.Shell.Handle.{ShellHandle, new_handle}

-- `russh::Error`, as far as a shell tells its errors apart, with what is displayed.
pub data RusshError : Type 0 where
  connection_timeout elapsed disconnect hup : RusshError
  request_denied wrong_channel inconsistent send_error io other : BoxError → RusshError

-- `Error::channel_with_source`
abbrev channel_with_source : ChannelErrorKind → Text → BoxError → Error
channel_with_source kind message source =
    Error.channel (category_error_with_source kind message source)

unfoldable pub map_shell_error : RusshError → Error
unfolding category_error category_error_with_source
map_shell_error (request_denied e) =
    channel_with_source ChannelErrorKind.request (text "channel request was denied") e
map_shell_error (wrong_channel e) =
    channel_with_source ChannelErrorKind.protocol (text "channel entered an invalid state") e
map_shell_error (inconsistent e) =
    channel_with_source ChannelErrorKind.protocol (text "channel entered an invalid state") e
map_shell_error (send_error e) =
    channel_with_source ChannelErrorKind.write (text "failed to write channel data") e
map_shell_error connection_timeout =
    Error.timeout (category_error Operation.shell (text "shell operation timed out"))
map_shell_error elapsed =
    Error.timeout (category_error Operation.shell (text "shell operation timed out"))
map_shell_error disconnect =
    Error.disconnected
      (category_error Operation.shell (text "server disconnected during shell operation"))
map_shell_error hup =
    Error.disconnected
      (category_error Operation.shell (text "server disconnected during shell operation"))
map_shell_error (io e) =
    channel_with_source ChannelErrorKind.read (text "shell channel I/O failed") e
map_shell_error (other e) =
    channel_with_source ChannelErrorKind.protocol (text "shell operation failed") e

pub record X11Params : Type 0 where
  pub single_connection : Bool
  pub protocol : Text
  pub cookie : Text
  pub screen : ℕ

unfoldable pub with_cookie : Text → Text → ℕ → X11Params
with_cookie protocol cookie screen = record {
  single_connection = false;
  protocol = protocol;
  cookie = cookie;
  screen = screen;
}

abbrev hex_digit : ℕ → ℕ
hex_digit d = if ltb d 10 then b'0' + d else 87 + d

-- `{b:02x}` of each byte.
unfoldable pub hex : Bytes → Text
hex [] = []
hex (b ∷ bs) = hex_digit (b / 16) ∷ hex_digit (b % 16) ∷ hex bs

-- `X11Params::new`, on the random bytes.
unfoldable pub new_x11 : Bytes → ℕ → X11Params
new_x11 cookie_bytes screen = with_cookie (text "MIT-MAGIC-COOKIE-1") (hex cookie_bytes) screen

-- What is asked of the channel, with its answer wanted or not as in the source.
pub data ShellRequest (P : Type 0) : Type 0 where
  request_pty : P → ShellRequest P
  set_env : Text → Text → ShellRequest P
  request_x11 : X11Params → ShellRequest P
  agent_forward request_shell close : ShellRequest P
  request_subsystem : Text → ShellRequest P

-- `Shell`, and its builder with the same fields; `connected` is `handle.is_some()`.
pub record Shell (P : Type 0) : Type 0 where
  pub connected : Bool
  pub pty : Option P
  pub env : List (Text × Text)
  pub x11_params : Option X11Params
  pub want_agent_forward : Bool

pub record Subsystem : Type 0 where
  pub connected : Bool
  pub name : Text
  pub x11_params : Option X11Params
  pub want_agent_forward : Bool

unfoldable pub from_session : {P : Type 0} → Bool → Shell P
from_session connected = record {
  connected = connected;
  pty = none;
  env = [];
  x11_params = none;
  want_agent_forward = false;
}

unfoldable pub with_pty : {P : Type 0} → P → Shell P → Shell P
with_pty pty b = record b { pty = some pty }

unfoldable pub with_env : {P : Type 0} → Text → Text → Shell P → Shell P
with_env name value b = record b { env = b.env ++ (name, value) ∷ [] }

unfoldable pub with_x11_params : {P : Type 0} → X11Params → Shell P → Shell P
with_x11_params params b = record b { x11_params = some params }

unfoldable pub with_agent_forward : {P : Type 0} → Shell P → Shell P
with_agent_forward b = record b { want_agent_forward = true }

-- The opening of a session channel under its time limit.
pub data Opened : Type 0 where
  timed_out : Opened
  refused : RusshError → Opened
  opened : Opened

abbrev shell_rejected : Text
shell_rejected = text "shell request was rejected by the server"

module _ {P T : Type 0} (open_session : T → Opened × T)
    (channel : ShellRequest P → T → Option RusshError × T) (wait : T → Option ChannelMsg × T)
    (map_channel_open_error : RusshError → Error) where
  -- `channel.….await.map_err(map_shell_error)?`
  unfoldable pub ask : {A : Type 0} → ShellRequest P → (T → Result A × T) → T → Result A × T
  ask request rest t =
      let (error, t') = channel request t in
      elim error [ some e ↦ (err (map_shell_error e), t') | none ↦ rest t' ]

  unfoldable pub reject : {A : Type 0} → Text → T → Result A × T
  unfolding category_error
  reject message t =
      (err (Error.channel (category_error ChannelErrorKind.request message)), (channel close t).1)

  -- The `match` on the answer to a request.
  unfoldable pub expect_success : {A : Type 0} → Text → (T → Result A × T) → T → Result A × T
  expect_success message rest t =
      let (answer, t') = wait t in
      elim answer [ none ↦ reject message t' | some failure ↦ reject message t' | some m ↦ rest t' ]

  -- The loop over `env`, which drops every result.
  unfoldable pub send_env : List (Text × Text) → T → T
  send_env [] t = t
  send_env ((name, value) ∷ env) t = send_env env (wait (channel (set_env name value) t).1).1

  unfoldable pub ask_pty :
      {A : Type 0} → Option P → List (Text × Text) → (T → Result A × T) → T → Result A × T
  ask_pty none env rest = rest
  ask_pty (some pty) env rest =
      ask (request_pty pty)
        (expect_success (text "PTY request was rejected by the server") λ t. rest (send_env env t))

  unfoldable pub ask_x11 : {A : Type 0} → Option X11Params → (T → Result A × T) → T → Result A × T
  ask_x11 none rest = rest
  ask_x11 (some params) rest = ask (request_x11 params) rest

  unfoldable pub ask_agent : {A : Type 0} → Bool → (T → Result A × T) → T → Result A × T
  ask_agent want rest = if want then ask agent_forward rest else rest

  unfoldable pub on_channel : {A : Type 0} → (T → Result A × T) → T → Result A × T
  unfolding category_error
  on_channel rest t =
      let (result, t') = open_session t in
      elim result [
        | timed_out ↦ (
          err (
              Error.timeout
                (category_error Operation.channel_open (text "session channel open timed out"))),
          t',
        )
        | refused e ↦ (err (map_channel_open_error e), t')
        | opened ↦ rest t'
      ]

  -- `Shell::open`
  unfoldable pub open_shell : Shell P → T → Result ShellHandle × T
  open_shell shell =
      if shell.connected
      then on_channel (
          ask_pty shell.pty shell.env (
            ask_x11 shell.x11_params (
              ask_agent shell.want_agent_forward
                (ask request_shell (expect_success shell_rejected λ t. (ok new_handle, t))))))
      else (λ t. (err (Error.unsupported (text "shell requires a connected session")), t))

  -- `Subsystem::open`
  unfoldable pub open_subsystem : Subsystem → T → Result ShellHandle × T
  open_subsystem subsystem =
      if subsystem.connected
      then on_channel (
          ask_x11 subsystem.x11_params (
            ask_agent subsystem.want_agent_forward (
              ask (request_subsystem subsystem.name) (
                expect_success
                  (text "subsystem '" ++ (subsystem.name ++ text "' was rejected by the server"))
                  λ t. (ok new_handle, t)))))
      else (λ t. (err (Error.unsupported (text "subsystem requires a connected session")), t))
