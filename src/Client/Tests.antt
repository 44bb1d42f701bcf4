-- ===== src/Client/Tests.antt =====
-- Tests of the model of crates/russh-extra/src/client.rs, and examples of its theorems.
use russh_extra.Base.{
  ℕ, ◌+◌, ◌≡◌, refl, Text, true, false, Option, none, some, List, [], ◌∷◌, arith, if◌then◌else◌,
}
use russh_extra.Base.Text.{text, bytes_eq}
use russh_extra.Core.Error.{Error, ok, missing}
use russh_extra.KnownHosts.Store.{new_store, check, check_loop, conclude}
use russh_extra.Client.Command.{
  ChannelMsg, success, data_msg, extended_data, exit_status, eof_msg, close_msg, ChannelRequest,
  RemoteCommand, run_command,
}
use russh_extra.Client.Output.{run_command-heard}
use russh_extra.Client.Messages.{refused, confirmed, has_close, stdout_of, stderr_of, first_exit}
use russh_extra.Client.HostKeys.{
  ClientHandler, PublicKeys, ed25519, strict, pinned_sha256, decided, key_changed, check_server_key,
}
use russh_extra.Client.Authentication.{
  AuthResult, failure, elapsed, answered, Credential, password, identity, no_credential, ready,
  AuthHandle, of_result, of_timed, of_identity, attempt, try_credentials, with_user,
  authenticate_configured,
}
use russh_extra.Client.Outcome.{Outcome, Made, verdict}
use russh_extra.Client.Verdict.{authenticate_configured-verdict}
use russh_extra.Client.Trust.{check_server_key-again}

-- A channel that takes all that is asked of it, and keeps it, the last request first.
abbrev recording : ChannelRequest → List ChannelRequest → Option Text × List ChannelRequest
recording r requests = (none, r ∷ requests)

abbrev as_error : Text → Error
as_error e = Error.unsupported e

abbrev list_files : RemoteCommand
list_files = record {
  program = text "ls";
  stdin = text "in";
  limits = record { stdout = 3; stderr = 2 };
}

abbrev said : List ChannelMsg
said =
    success
    ∷ data_msg (text "a")
    ∷ extended_data 1 (text "e")
    ∷ data_msg (text "bc")
    ∷ exit_status 2
    ∷ exit_status 0
    ∷ eof_msg
    ∷ close_msg
    ∷ data_msg (text "late")
    ∷ []

said_test : stdout_of said ≡ text "abc"
unfolding stdout_of text
said_test = refl

run_command-heard_example :
    (run_command recording as_error list_files said true []).0
    ≡ ok (record {
      exit = first_exit missing said;
      stdout = stdout_of said;
      stderr = stderr_of said;
    })
unfolding refused confirmed has_close stdout_of stderr_of text
run_command-heard_example =
    run_command-heard recording as_error list_files (λ r t. refl) said true [] refl refl refl
      (omega arith) (omega arith)

-- A key is its bytes.
abbrev keys : PublicKeys Text
keys = record {
  to_bytes = λ key. some key;
  sha256_fingerprint = λ key. key;
  key_data = λ key. ed25519;
}

abbrev trusting : ClientHandler
trusting = record {
  endpoint = record { host = text "h"; port = 22 };
  host_key_policy = strict;
  known_hosts = some new_store;
  known_hosts_accept_new = true;
}

check_server_key-again_example :
    ((check_server_key keys trusting (text "k")).0 ≡ decided true)
    × ((check_server_key keys (check_server_key keys trusting (text "k")).1 (text "l")).0
        ≡ (if bytes_eq (text "k") (text "l") then decided true else key_changed))
unfolding check check_loop conclude new_store
check_server_key-again_example =
    check_server_key-again keys trusting new_store (text "k") (text "l") (text "k") (text "l") refl
      refl refl refl refl

abbrev pinning : ClientHandler
pinning = record trusting {
  host_key_policy = pinned_sha256 (text "SHA256:k" ∷ []);
  known_hosts = none;
}

-- A server that refuses a password in part, and takes any identity.
abbrev server : AuthHandle Text Text Text ℕ
server = record {
  authenticate_password = λ user word n. (answered (ok (failure true)), n + 1);
  authenticate_none = λ user n. (elapsed, n + 1);
  try_publickey_auth = λ user i n. (ok AuthResult.success, n + 1);
  run_keyboard_interactive = λ user h n. (elapsed, n + 1);
  decrypt = λ x. ready x;
  authenticate_openssh_cert = λ user x n. (answered (ok (failure false)), n + 1);
}

abbrev credentials : List (Credential Text Text)
credentials = password (text "pw") ∷ identity (text "key") ∷ no_credential ∷ []

authenticate_configured-verdict_example :
    (made : List Outcome) × Made server (text "ann") credentials [] 0 made
    × ((authenticate_configured server (some (text "ann")) credentials [] 0).0 ≡ verdict made)
authenticate_configured-verdict_example =
    authenticate_configured-verdict server (text "ann") credentials [] 0 refl

credentials_test : authenticate_configured server (some (text "ann")) credentials [] 0 ≡ (ok tt, 2)
unfolding authenticate_configured with_user try_credentials attempt of_timed of_result of_identity
credentials_test = refl
