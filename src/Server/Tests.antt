-- ===== src/Server/Tests.antt =====
-- Tests of the model of crates/russh-extra/src/server.rs, and examples of its theorems.
use russh_extra.Base.{
  ℕ, ◌+◌, ◌≡◌, ◌≢◌, refl, Bytes, Text, true, false, none, some, List, [], ◌∷◌, arith, if◌then◌else◌,
}
use russh_extra.Base.Text.{text, bytes_eq}
use russh_extra.Base.Assoc.{lookup}
use russh_extra.Core.Error.{Error, ok, err, status}
use russh_extra.Sftp.Handler as Sftp
use russh_extra.Core.Endpoint.{parse, authority, count_byte}
use russh_extra.Core.Authority.{parse-authority}
use russh_extra.Server.Runtime.{
  ServerRuntime, ServerSession, RusshSession, Reply, send_data, Handled, done, failed, russh,
  high_level, call, or_fail, exit_status_request, eof, close,
}
use russh_extra.Server.Channels as Channels
use russh_extra.Server.Channels.{
  admit, refuses_session, set_env, close_channel, channel_data, send_stdin, sftp_data,
}
use russh_extra.Server.Requests.{start_sftp}
use russh_extra.Server.Exec.{exec_context, route_for, unauthenticated}
use russh_extra.Server.Exec as Exec
use russh_extra.Server.Auth as Auth
use russh_extra.Server.Auth.{accepted, decide, log_in, fire_auth_success, auth_context}
use russh_extra.Server.Event.{
  Event, authenticate, auth_password, auth_publickey_offered, channel_open_session, channel_close,
  request, forward, Request, Forward, exec_request, shell_request, finished, tcpip_forward, handle,
  run_auth, run_request, new_client, granted, channel_of,
}
use russh_extra.Server.Event as Event
use russh_extra.Server.Handler.{default_handler}
use russh_extra.Server.HostKey.{
  KeyFiles, found, load, load_all, from_openssh_file, validate_host_key_permissions, check_mode,
  read_key, from_loaded_private_key,
}
use russh_extra.Server.Builder.{
  ServerBuilder, Server, builder, host_key_file, handler, into_runtime, with_host_keys, build,
}
use russh_extra.Server.Streaming.{
  stdout, exited, returned, new_pipe, Turn, writes, polls, take_turns, finish, task, written, exits,
  gives_missing, write, pump, exit_replies, last_replies,
}
use russh_extra.Server.Lifecycle.{
  hup, not_authenticated, map_server_error, session_errors, first_reported, take_error, reported,
  hangs_up,
}
use russh_extra.Server.Answers.{recorder, answers}
use russh_extra.Server.Answered.{run_request-answers}
use russh_extra.Server.Sessions.{start, next, Sound, log}
use russh_extra.Server.Reachable.{Reach-Sound}
use russh_extra.Server.Unauthenticated.{unauthenticated-handle}
use russh_extra.Server.Routes.{exec_request-handler}
use russh_extra.Server.Interleaving.{finish-take_turns, exits-task}
use russh_extra.Server.Isolation.{exec_context-set_env}
use russh_extra.Sftp.Server.Feeding.{on_channel, feed, fresh_runtime}
use russh_extra.Server.Traffic.{run_data, onto_session, run_data-start_sftp}
use russh_extra.Server.Lifecycle.{take_error-session_errors}

abbrev Builder : Type 0
Builder = ServerBuilder ℕ Text Text Text Text

-- An application that counts its logins, in a server that lets one session in.
abbrev counting : Builder
counting = record builder {
  config = record {
    listen = record { host = text "h"; port = 22 };
    server_id = text "s";
    max_sessions = 1;
  };
  password_auth = some (λ ctx password logins.
      (ok (record { accepted = bytes_eq password (text "pw") }), logins + 1));
}

abbrev runtime : ServerRuntime ℕ Text Text Text
runtime = record (into_runtime counting) { shell_handler = some (λ ctx logins. (ok tt, logins)) }

abbrev transport : RusshSession Text (List Reply)
transport = recorder

abbrev display : Error → Text
display e = text "error"

abbrev fresh : ServerSession ℕ Text × List Reply
fresh = (new_client runtime 7 none 0, [])

abbrev login : Event Text Text
login = authenticate (auth_password (text "ann") (text "pw"))

abbrev logged_in : ServerSession ℕ Text × List Reply
logged_in = (record (new_client runtime 7 none 1) { username = some (text "ann") }, [])

login_test : handle runtime transport display login fresh ≡ (done (Event.auth accepted), logged_in)
unfolding handle run_auth Auth.auth_password call or_fail decide log_in fire_auth_success
    into_runtime builder new_client bytes_eq text auth_context
login_test = refl

-- A channel that was never counted is closed, and a second session is let in at a limit of one.
abbrev beyond_the_limit : List (Event Text Text)
beyond_the_limit = login ∷ channel_open_session ∷ channel_close 9 ∷ channel_open_session ∷ []

abbrev granted_all :
    List (Event Text Text) → ServerSession ℕ Text × List Reply → List (Handled Text Event.Outcome)
granted_all [] w = []
granted_all (e ∷ events) w =
    let (outcome, w') = handle runtime transport display e w in outcome ∷ granted_all events w'

beyond_the_limit_test :
    granted_all beyond_the_limit fresh
    ≡ done (Event.auth accepted)
      ∷ done (granted true)
      ∷ done (finished tt)
      ∷ done (granted true)
      ∷ []
unfolding handle run_auth Auth.auth_password call or_fail decide log_in fire_auth_success
    into_runtime builder new_client bytes_eq text auth_context Channels.channel_open_session admit
    refuses_session Channels.channel_close close_channel
beyond_the_limit_test = refl

Reach-Sound_example :
    Sound runtime
      (handle runtime transport display login fresh).1.0
      (log login (handle runtime transport display login fresh).0 [])
Reach-Sound_example =
    Reach-Sound runtime transport display _ _ (next fresh [] login (start 7 none 0 []))

unauthenticated-handle_example :
    ((f : Forward)
      → (handle runtime transport display (forward f) fresh).0 ≡ done (granted false)
        × ((handle runtime transport display (forward f) fresh).1.0 ≡ fresh.0))
    × ((channel : ℕ) (command : Bytes)
        → handle runtime transport display (request (exec_request channel command)) fresh
          ≡ (failed (high_level unauthenticated), fresh))
unauthenticated-handle_example =
    unauthenticated-handle runtime transport display fresh (start 7 none 0 [])

run_request-answers_example :
    answers (run_request runtime (recorder {R = Text}) (shell_request 3) logged_in).1.1 ≡ 3 ∷ []
run_request-answers_example =
    run_request-answers Text runtime (shell_request 3) logged_in (text "ann") refl

exec_request-handler_example :
    Exec.exec_request
      (into_runtime (handler (default_handler (text "idle")) counting))
      transport
      3
      (text "ls")
      logged_in
    ≡ Exec.exec_request
        (record (into_runtime (handler (default_handler (text "idle")) counting)) {
          exec_routes = (text "ls", λ ctx n. (err unauthenticated, n)) ∷ [];
          fallback_exec = none;
        })
        transport
        3
        (text "ls")
        logged_in
exec_request-handler_example =
    exec_request-handler (default_handler (text "idle")) counting transport
      ((text "ls", λ ctx n. (err unauthenticated, n)) ∷ []) none 3 (text "ls") logged_in

abbrev files : KeyFiles Text
files = record {
  mode = λ path. found 384;
  read_openssh_file = λ path. found path;
  is_encrypted = λ key. false;
}

abbrev keyed : Builder
keyed = host_key_file (text "/etc/key") counting

abbrev built : Server ℕ Text Text Text Text
built = record {
  host_keys = text "/etc/key" ∷ [];
  shutdown_grace = 30;
  runtime = into_runtime keyed;
}

build_test : build files keyed ≡ ok built
unfolding build host_key_file load_all load from_openssh_file validate_host_key_permissions
    check_mode read_key from_loaded_private_key with_host_keys builder
build_test = refl

abbrev turns : List Turn
turns =
    writes (stdout (text "a"))
    ∷ polls
    ∷ writes (exited (status 3))
    ∷ writes (stdout (text "late"))
    ∷ polls
    ∷ polls
    ∷ []

finish-take_turns_example :
    finish 3 returned (take_turns 3 turns new_pipe) ≡ task 3 (written turns) returned
finish-take_turns_example = finish-take_turns 3 returned turns

-- What is written behind an exit is taken, and is not sent.
late_write_test : (write (stdout (text "late")) (write (exited (status 3)) new_pipe).1).0 ≡ ok tt
unfolding write
late_write_test = refl

late_write_lost_test :
    task 3 (written turns) returned
    ≡ send_data 3 (text "a") ∷ exit_status_request 3 3 ∷ eof 3 ∷ close 3 ∷ []
unfolding task pump exit_replies last_replies
late_write_lost_test = refl

exits-task_example :
    exits (task 3 (written turns) returned) ≡ (if gives_missing (written turns) then 0 else 1)
exits-task_example = exits-task 3 returned (written turns)

abbrev this : ℕ
this = 3

abbrev other : ℕ
other = 4

exec_context-set_env_example :
    (route_for
        (text "LANG")
        (exec_context
          (set_env 3 (text "LANG") (text "C") logged_in.0)
          3
          (text "ls")
          (text "ann")).env
      ≡ (if bytes_eq (text "LANG") (text "LANG")
          then some (text "C")
          else route_for (text "LANG") (exec_context logged_in.0 3 (text "ls") (text "ann")).env))
    × (this ≢ other
        → (exec_context
            (set_env 3 (text "LANG") (text "C") logged_in.0)
            4
            (text "ls")
            (text "ann")).env
          ≡ (exec_context logged_in.0 4 (text "ls") (text "ann")).env)
    × ((exec_context (close_channel 3 logged_in.0) 3 (text "ls") (text "ann")).env ≡ [])
    × (this ≢ other
        → (exec_context (close_channel 3 logged_in.0) 4 (text "ls") (text "ann")).env
          ≡ (exec_context logged_in.0 4 (text "ls") (text "ann")).env)
exec_context-set_env_example =
    exec_context-set_env logged_in.0 3 4 (text "LANG") (text "C") (text "LANG") (text "ls")
      (text "ann")

-- A session whose channel 4 has a streaming handler that reads, and data for it around that for SFTP.
abbrev reading : ServerSession ℕ Text
reading = record logged_in.0 { stdin_txs = (4, tt) ∷ []; stdin = [] }

abbrev messages : List (ℕ × Bytes)
messages = (4, 97 ∷ []) ∷ (3, 0 ∷ 0 ∷ []) ∷ (4, 98 ∷ []) ∷ (3, 0 ∷ 1 ∷ []) ∷ []

other-this : other ≢ this
other-this = omega arith

run_data-start_sftp_example :
    let (st', t') =
      run_data transport display messages (start_sftp (Sftp.default_handler ℕ) 3 reading, []) in
    let (sftp, written) =
      feed
        (onto_session transport display (Sftp.default_handler ℕ))
        3
        (on_channel 3 messages)
        (fresh_runtime reading.app 3, []) in
    (st'.sftp ≡ some (Sftp.default_handler ℕ, sftp))
    × (st'.app ≡ sftp.handler_state)
    × (t' ≡ written)
    × (on_channel 4 st'.stdin ≡ (97 ∷ []) ∷ (98 ∷ []) ∷ [])
unfolding lookup
run_data-start_sftp_example =
    run_data-start_sftp transport display (Sftp.default_handler ℕ) 3 4 other-this messages reading
      [] (omega arith)

take_error-session_errors_example :
    take_error
      (session_errors (russh hup ∷ russh not_authenticated ∷ high_level unauthenticated ∷ []) none)
    ≡ (first_reported (russh hup ∷ russh not_authenticated ∷ high_level unauthenticated ∷ []), none)
take_error-session_errors_example =
    take_error-session_errors
      (russh hup ∷ russh not_authenticated ∷ high_level unauthenticated ∷ [])

first_reported_test :
    first_reported (russh hup ∷ russh not_authenticated ∷ high_level unauthenticated ∷ [])
    ≡ some (map_server_error not_authenticated)
unfolding first_reported reported hangs_up
first_reported_test = refl

parse-authority_example :
    parse (authority (record { host = text "::1"; port = 2222 }))
    ≡ ok (record { host = text "::1"; port = 2222 })
unfolding text count_byte
parse-authority_example =
    parse-authority (record { host = text "::1"; port = 2222 }) (omega arith)
      (record { bracketed = refl; plain = refl; some_byte = refl })
