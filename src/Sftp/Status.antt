-- ===== src/Sftp/Status.antt =====
-- crates/russh-extra/src/sftp/packet.rs: the status codes and what they mean to the client.
use russh_extra.Base.{ℕ, Text, ◌==◌, ◌++◌, if◌then◌else◌}
use russh_extra.Base.Text.{text, decimal}
use russh_extra.Core.Error.{Result, ok, err, SftpErrorKind, sftp_error}

abbrev pub fx_ok : ℕ
fx_ok = 0

abbrev pub fx_eof : ℕ
fx_eof = 1

abbrev pub fx_no_such_file : ℕ
fx_no_such_file = 2

abbrev pub fx_permission_denied : ℕ
fx_permission_denied = 3

abbrev pub fx_failure : ℕ
fx_failure = 4

abbrev pub fx_bad_message : ℕ
fx_bad_message = 5

abbrev pub fx_no_connection : ℕ
fx_no_connection = 6

abbrev pub fx_connection_lost : ℕ
fx_connection_lost = 7

abbrev pub fx_op_unsupported : ℕ
fx_op_unsupported = 8

unfoldable pub sftp_error_kind_for_code : ℕ → SftpErrorKind
sftp_error_kind_for_code code =
    if code == fx_no_such_file
    then SftpErrorKind.no_such_file
    else if code == fx_permission_denied
    then SftpErrorKind.permission_denied
    else if code == fx_bad_message
    then SftpErrorKind.protocol
    else if code == fx_op_unsupported
    then SftpErrorKind.unsupported
    else SftpErrorKind.remote_status

unfoldable pub status_code_name : ℕ → Text
status_code_name code =
    if code == fx_ok
    then text "OK"
    else if code == fx_eof
    then text "EOF"
    else if code == fx_no_such_file
    then text "NO_SUCH_FILE"
    else if code == fx_permission_denied
    then text "PERMISSION_DENIED"
    else if code == fx_failure
    then text "FAILURE"
    else if code == fx_bad_message
    then text "BAD_MESSAGE"
    else if code == fx_no_connection
    then text "NO_CONNECTION"
    else if code == fx_connection_lost
    then text "CONNECTION_LOST"
    else if code == fx_op_unsupported
    then text "OP_UNSUPPORTED"
    else text "UNKNOWN"

unfoldable pub status_message : ℕ → Text → Text
status_message status_code message =
    text "SFTP error code " ++ (decimal status_code ++ (text ": " ++ message))

unfoldable pub check_status : ℕ → Text → Result (Unit {0})
unfolding sftp_error status_message
check_status status_code message =
    if status_code == fx_ok
    then ok tt
    else err
        (sftp_error (sftp_error_kind_for_code status_code) (status_message status_code message))
