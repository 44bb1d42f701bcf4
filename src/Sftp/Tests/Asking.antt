-- ===== src/Sftp/Tests/Asking.antt =====
-- The client at concrete responses.
use russh_extra.Base.{◌≡◌, refl, ◌<◌, arith, [], ◌∷◌, ◌++◌, length, true, false, some, none}
use russh_extra.Base.Text.{text}
use russh_extra.Base.Word.{u32_bytes}
use russh_extra.Base.Assoc.{lookup, insert, remove, contains_key}
use russh_extra.Core.Error.{Result, ok, err, SftpErrorKind, sftp_error}
use russh_extra.Sftp.Client.Runtime.{
  ClientState, connected, begin_request, next_request_id, read_task, incoming, closed,
}
use russh_extra.Sftp.Client.Accounting.{
  System, start, call, receive, begin, next, IsAccounted, issue, one_more, Reach-IsAccounted,
}
use russh_extra.Sftp.Exchange.Answers.{handle, encode_answer}
use russh_extra.Sftp.Exchange.Replies.{answer_fields, response_of}
use russh_extra.Sftp.Exchange.OverTheWire.{read_task-encode_answer}
use russh_extra.Sftp.Exchange.Fields.{readdir}
use russh_extra.Sftp.Exchange.Methods.{Returns, method-Returns}
use russh_extra.Sftp.Tests.Sample.{two_files, error_text, response_text, notes_IsSendable}

abbrev pub waiting : ClientState
waiting = begin_request 10 connected

is_waiting : contains_key waiting.pending 10 ≡ true
unfolding begin_request insert lookup
is_waiting = refl

small : length (answer_fields 10 (handle (text "notes.txt"))) < 262144
unfolding answer_fields text u32_bytes
small = omega arith

read_task-encode_answer_example :
    read_task (incoming (encode_answer 10 (handle (text "notes.txt")))) (some [], waiting) ≡ (
      some [],
      record waiting {
        pending = remove 10 waiting.pending;
        delivered = waiting.delivered ++ (10, ok (response_of (handle (text "notes.txt")))) ∷ [];
      },
    )
read_task-encode_answer_example =
    read_task-encode_answer 10 (handle (text "notes.txt")) waiting (omega arith) notes_IsSendable
      small is_waiting

no_request_waits : contains_key start.state.pending start.state.next_id ≡ false
unfolding connected lookup
no_request_waits = refl

abbrev pub one_request : System
one_request = record start {
  state = issue start.state;
  issued = one_more start.state.next_id start.issued;
}

-- A request is sent, and the channel closes before its answer.
abbrev pub unanswered : System
unanswered = record one_request {
  task = (read_task closed (one_request.task, one_request.state)).0;
  state = (read_task closed (one_request.task, one_request.state)).1;
}

Reach-IsAccounted_example : IsAccounted unanswered.issued unanswered.state
Reach-IsAccounted_example =
    Reach-IsAccounted (next (next begin (call start no_request_waits)) (receive one_request closed))

-- The request is still waiting, and the read task has returned.
closed_leaves_waiting : (unanswered.task ≡ none) × (contains_key unanswered.state.pending 10 ≡ true)
unfolding connected issue next_request_id begin_request insert lookup read_task
closed_leaves_waiting = (refl, refl)

abbrev pub denied : Result (Unit {0})
denied = err (sftp_error SftpErrorKind.permission_denied (text "no"))

method-Returns_example :
    Returns two_files error_text response_text 0 12 (readdir (text "notes.txt"))
method-Returns_example =
    method-Returns two_files error_text response_text 0 12 (readdir (text "notes.txt"))
