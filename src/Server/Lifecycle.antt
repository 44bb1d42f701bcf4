-- ===== src/Server/Lifecycle.antt =====
-- crates/russh-extra/src/server.rs: the errors of the sessions of a server, the request to shut it
-- down, and the end of a session.
use russh_extra.Base.{
  ◌≡◌, refl, ap, ◌∙◌, Text, Bool, true, false, Option, none, some, List, [], ◌∷◌, ◌++◌, arith,
  is_some, if◌then◌else◌,
}
use russh_extra.Base.Text.{text}
use russh_extra.Core.Error.{
  Error, BoxError, TransportErrorKind, AuthenticationErrorKind, ChannelErrorKind, SshErrorKind,
  Operation, category_error, category_error_with_source,
}
use russh_extra.Server.Runtime.{
  ServerRuntime, ServerSession, disconnected, ServerRuntimeError, russh, high_level,
}

-- The errors of `russh` that the source names; `other` is any other, by its text.
pub data RusshError : Type 0 where
  not_authenticated unsupported_auth_method disconnect hup : RusshError
  io : BoxError → RusshError
  kex_init kex no_common_algo packet_auth version strict_key_exchange_violation :
      BoxError → RusshError
  wrong_channel inconsistent send_error : BoxError → RusshError
  other : BoxError → RusshError

unfoldable pub negotiation_failed : BoxError → Error
unfolding category_error_with_source
negotiation_failed e = Error.transport (
    category_error_with_source TransportErrorKind.negotiation (text "server SSH negotiation failed")
      e)

unfoldable pub invalid_state : BoxError → Error
unfolding category_error_with_source
invalid_state e = Error.channel (
    category_error_with_source ChannelErrorKind.protocol
      (text "server channel entered an invalid state") e)

unfoldable pub map_server_error : RusshError → Error
unfolding category_error category_error_with_source
map_server_error not_authenticated = Error.authentication (
    category_error AuthenticationErrorKind.unavailable
      (text "server request was received before authentication"))
map_server_error unsupported_auth_method = Error.authentication (
    category_error AuthenticationErrorKind.unsupported_method
      (text "server received an unsupported authentication method"))
map_server_error disconnect =
    Error.disconnected (category_error Operation.server (text "client disconnected from server"))
map_server_error hup =
    Error.disconnected (category_error Operation.server (text "client disconnected from server"))
map_server_error (io e) =
    Error.transport
      (category_error_with_source TransportErrorKind.io (text "server transport I/O failed") e)
map_server_error (kex_init e) = negotiation_failed e
map_server_error (kex e) = negotiation_failed e
map_server_error (no_common_algo e) = negotiation_failed e
map_server_error (packet_auth e) = negotiation_failed e
map_server_error (version e) = negotiation_failed e
map_server_error (strict_key_exchange_violation e) = negotiation_failed e
map_server_error (wrong_channel e) = invalid_state e
map_server_error (inconsistent e) = invalid_state e
map_server_error (send_error e) = Error.channel (
    category_error_with_source ChannelErrorKind.write (text "server failed to send channel data") e)
map_server_error (other e) =
    Error.ssh (category_error_with_source SshErrorKind.other (text "russh server session failed") e)

-- `last_error`, when its lock is not poisoned.
unfoldable pub record_error : Error → Option Error → Option Error
record_error e none = some e
record_error e (some first) = some first

unfoldable pub take_error : Option Error → Option Error × Option Error
take_error last = (last, none)

-- `russh::Error::Disconnect | russh::Error::HUP`
unfoldable pub hangs_up : RusshError → Bool
hangs_up disconnect = true
hangs_up hup = true
hangs_up e = false

unfoldable pub handle_session_error : ServerRuntimeError RusshError → Option Error → Option Error
handle_session_error (russh e) last =
    if hangs_up e then last else record_error (map_server_error e) last
handle_session_error (high_level e) last = record_error e last

-- The errors of the sessions, in the order in which they fail.
unfoldable pub session_errors : List (ServerRuntimeError RusshError) → Option Error → Option Error
session_errors [] last = last
session_errors (e ∷ errors) last = session_errors errors (handle_session_error e last)

-- What a server reports of an error.
unfoldable pub reported : ServerRuntimeError RusshError → Option Error
reported (russh e) = if hangs_up e then none else some (map_server_error e)
reported (high_level e) = some e

unfoldable pub first_reported : List (ServerRuntimeError RusshError) → Option Error
first_reported [] = none
first_reported (e ∷ errors) = elim (reported e) [
  | some first ↦ some first
  | none ↦ first_reported errors
]

unfoldable pub or_else : Option Error → Option Error → Option Error
or_else (some e) later = some e
or_else none later = later

handle_session_error-reported :
    (e : ServerRuntimeError RusshError) (last : Option Error)
    → handle_session_error e last ≡ or_else last (reported e)
unfolding handle_session_error reported or_else record_error
handle_session_error-reported (russh e) none = ground arith
handle_session_error-reported (russh e) (some first) = ground arith
handle_session_error-reported (high_level e) none = refl
handle_session_error-reported (high_level e) (some first) = refl

or_else_assoc :
    (last now later : Option Error)
    → or_else (or_else last now) later
      ≡ or_else last (elim now as (λ _. Option Error) [ some first ↦ some first | none ↦ later ])
unfolding or_else
or_else_assoc none none later = refl
or_else_assoc none (some e) later = refl
or_else_assoc (some first) now later = refl

session_errors-from :
    (errors : List (ServerRuntimeError RusshError)) (last : Option Error)
    → session_errors errors last ≡ or_else last (first_reported errors)
unfolding session_errors first_reported or_else
session_errors-from [] none = refl
session_errors-from [] (some first) = refl
session_errors-from (e ∷ errors) last =
    session_errors-from errors (handle_session_error e last)
    ∙ ap (λ l. or_else l (first_reported errors)) (handle_session_error-reported e last)
    ∙ or_else_assoc last (reported e) (first_reported errors)

-- After any sequence of session errors, the error that the server takes is the first of them
-- that is not a disconnect or a hang-up of the client, mapped to an error of the workspace, and
-- no error is left.
pub take_error-session_errors :
    (errors : List (ServerRuntimeError RusshError))
    → take_error (session_errors errors none) ≡ (first_reported errors, none)
unfolding take_error or_else
take_error-session_errors errors = ap (λ l. (l, none)) (session_errors-from errors none)

-- `ServerHandle::shutdown` and `is_shutdown_requested`, on the reason that the handles share.
unfoldable pub shutdown : Text → Option Text → Option Text
shutdown reason none = some reason
shutdown reason (some first) = some first

unfoldable pub is_shutdown_requested : Option Text → Bool
is_shutdown_requested reason = is_some reason

module _ {S K C F : Type 0} (runtime : ServerRuntime S K C F) where
  -- `Drop`, of one of the handlers of a session: they share `disconnect_notified`.
  unfoldable pub drop : ServerSession S F → ServerSession S F
  drop st =
      if st.disconnect_notified
      then st
      else if is_some runtime.on_disconnect
      then record st {
        disconnect_notified = true;
        spawned = st.spawned ++ disconnected st.session_id ∷ [];
      }
      else record st { disconnect_notified = true }

  -- The clones of a handler tell of the end of their session once.
  drop-drop : (st : ServerSession S F) → drop (drop st) ≡ drop st
  unfolding drop
  drop-drop st = ground arith
