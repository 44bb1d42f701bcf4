-- ===== src/Sftp/Tests/Sample.antt =====
-- A handler, a session that records what is written, and requests to them.
use russh_extra.Base.{ℕ, ◌+◌, refl, arith, Bytes, Text, List, [], ◌∷◌, ◌++◌, true, some}
use russh_extra.Base.Text.{text, is_utf8}
use russh_extra.Core.Error.{Error, ok}
use russh_extra.Sftp.Wire.Reads.{IsSendable}
use russh_extra.Sftp.Attrs.{SftpFileAttrs, default_attrs, has_flag}
use russh_extra.Sftp.Attrs.Reads.{IsReadable}
use russh_extra.Sftp.Response.{SftpNameEntry}
use russh_extra.Sftp.Metadata.{SftpMetadata, default_metadata, SftpDirEntry}
use russh_extra.Sftp.Handler.{SftpServerHandler, default_handler}
use russh_extra.Sftp.Server.Runtime.{SftpServerRuntime, Surroundings, new_runtime, register_channel}
use russh_extra.Sftp.Client.Responses.{SftpResponse}

abbrev pub some_metadata : SftpMetadata
some_metadata = record default_metadata {
  size = some 300;
  uid = some 1000;
  permissions = some 0x81a4;
  modified = some 1700000000;
}

abbrev pub some_entries : List SftpDirEntry
some_entries =
    record { filename = text "notes.txt"; longname = text "-rw-r--r--"; metadata = some_metadata }
    ∷ record { filename = text "src"; longname = text "drwxr-xr-x"; metadata = default_metadata }
    ∷ []

-- The state counts the calls of `read`.
abbrev pub two_files : SftpServerHandler ℕ
two_files = record (default_handler ℕ) {
  read = λ id handle offset len s. (ok (1 ∷ 2 ∷ 3 ∷ []), s + 1);
  stat = λ id path s. (ok some_metadata, s);
  readdir = λ id handle s. (ok some_entries, s);
}

abbrev pub error_text : Error → Text
error_text e = text "failed"

abbrev pub response_text : SftpResponse → Text
response_text r = text "response"

abbrev pub env : Surroundings ℕ (List Bytes)
env = record {
  handler = two_files;
  display = error_text;
  session_data = λ channel bytes sent. (true, sent ++ bytes ∷ []);
}

-- Channel 7 is registered.
abbrev pub runtime : SftpServerRuntime ℕ
runtime = register_channel 7 (new_runtime 0)

pub notes_IsSendable : IsSendable (text "notes.txt")
unfolding text is_utf8
notes_IsSendable = record { well_formed = refl; fits = omega arith }

pub mode_IsSendable : IsSendable (text "-rw-r--r--")
unfolding text is_utf8
mode_IsSendable = record { well_formed = refl; fits = omega arith }

-- The bits for the size and for the permissions.
abbrev pub sized : SftpFileAttrs
sized = record default_attrs { flags = 5; size = some 300; permissions = some 420 }

pub sized-IsReadable : IsReadable sized
unfolding has_flag
sized-IsReadable = record {
  in_range = record {
    flags = omega arith;
    size = omega arith;
    uid = omega arith;
    gid = omega arith;
    permissions = omega arith;
    atime = omega arith;
    mtime = omega arith;
  };
  plain = refl;
}

abbrev pub entry : SftpNameEntry
entry = record { filename = text "notes.txt"; longname = text "-rw-r--r--"; attrs = sized }
