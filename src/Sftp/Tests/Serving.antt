-- ===== src/Sftp/Tests/Serving.antt =====
-- The server at concrete requests.
use russh_extra.Base.{ℕ, max, ◌≡◌, refl, ◌<◌, arith, Bytes, [], ◌∷◌, ◌++◌, length, some}
use russh_extra.Base.Text.{text}
use russh_extra.Base.Word.{AllBytes, from_be_bytes, u32_bytes, u64_bytes}
use russh_extra.Base.Assoc.{lookup, insert}
use russh_extra.Core.Error.{ok}
use russh_extra.Sftp.Framing.{complete, split_packets}
use russh_extra.Sftp.Framing.Stream.{stream_wire}
use russh_extra.Sftp.Server.Runtime.{new_runtime, register_channel, handle_channel_close}
use russh_extra.Sftp.Server.Dispatch.{
  dispatch_packet, serve_packets, write_response, after_split, handle_data,
}
use russh_extra.Sftp.Server.Invariant.{
  IsValid, new_runtime-IsValid, register_channel-IsValid, handle_data-IsValid,
}
use russh_extra.Sftp.Server.Chunks.{handle_data-append, handle_data-bad_length}
use russh_extra.Sftp.Exchange.Fields.{
  Request, read, packet_type, fields, encode_request, IsSendableRequest,
}
use russh_extra.Sftp.Exchange.Answers.{perform}
use russh_extra.Sftp.Exchange.Serving.{dispatch_packet-perform, served}
use russh_extra.Sftp.Exchange.OverTheWire.{handle_data-encode_request, answering}
use russh_extra.Sftp.Exchange.Negotiation.{version_fields, settled, dispatch_packet-encode_init}
use russh_extra.Sftp.Wire.{frame}
use russh_extra.Sftp.PacketType.{fxp_init, fxp_version}
use russh_extra.Sftp.Request.{encode_init}
use russh_extra.Sftp.Response.{decode_version}
use russh_extra.Sftp.Handler.{default_handler}
use russh_extra.Sftp.Tests.Sample.{env, two_files, error_text, runtime, notes_IsSendable}

abbrev pub request : Request
request = read (text "notes.txt") 65536 3

request_IsSendable : IsSendableRequest request
request_IsSendable = (notes_IsSendable, omega arith, omega arith)

registered : lookup 7 runtime.buffers ≡ some []
unfolding register_channel insert lookup
registered = refl

small : length (fields 12 request) < 262144
unfolding fields text u32_bytes u64_bytes
small = omega arith

dispatch_packet-perform_example :
    dispatch_packet env (packet_type request ∷ (fields 12 request ++ [])) runtime
    ≡ served env 12 (perform env.handler env.display 12 request runtime.handler_state) runtime
dispatch_packet-perform_example =
    dispatch_packet-perform env 12 request [] runtime (omega arith) request_IsSendable

handle_data-encode_request_example : handle_data env 7 (encode_request 12 request) (runtime, []) ≡ (
  ok tt,
  answering env 7 12
      (perform env.handler env.display 12 request runtime.handler_state)
      (runtime, []),
)
handle_data-encode_request_example =
    handle_data-encode_request env 7 12 request runtime [] registered (omega arith)
      request_IsSendable small refl

-- The handler was called once.
one_call : (perform two_files error_text 12 request 0).1 ≡ 1
unfolding perform
one_call = refl

new_runtime-IsValid_example : IsValid {S = ℕ} (new_runtime 0)
new_runtime-IsValid_example = new_runtime-IsValid 0

runtime-IsValid : IsValid runtime
runtime-IsValid = register_channel-IsValid (new_runtime-IsValid 0) 7

-- A packet of an unknown type 99, then the start of the next packet.
abbrev pub first_chunk : Bytes
first_chunk = 0 ∷ 0 ∷ 0 ∷ 1 ∷ 99 ∷ 0 ∷ 0 ∷ []

first_bytes : AllBytes first_chunk
first_bytes = (
  omega arith,
  (omega arith, (omega arith, (omega arith, (omega arith, (omega arith, (omega arith, tt)))))),
)

handle_data-IsValid_example : IsValid (handle_data env 7 first_chunk (runtime, [])).1.0
handle_data-IsValid_example =
    handle_data-IsValid env 7 first_chunk runtime [] runtime-IsValid first_bytes

first_split : split_packets ([] ++ first_chunk) ≡ complete ((99 ∷ []) ∷ []) (0 ∷ 0 ∷ [])
unfolding split_packets from_be_bytes
first_split = refl

second_split : split_packets ((0 ∷ 0 ∷ []) ++ (0 ∷ 1 ∷ 98 ∷ [])) ≡ complete ((98 ∷ []) ∷ []) []
unfolding split_packets from_be_bytes
second_split = refl

first_fine : (handle_data env 7 first_chunk (runtime, [])).0 ≡ ok tt
unfolding handle_data after_split serve_packets write_response dispatch_packet split_packets
    from_be_bytes register_channel insert lookup
first_fine = refl

handle_data-append_example :
    handle_data env 7 (first_chunk ++ (0 ∷ 1 ∷ 98 ∷ [])) (runtime, [])
    ≡ handle_data env 7 (0 ∷ 1 ∷ 98 ∷ []) (handle_data env 7 first_chunk (runtime, [])).1
handle_data-append_example =
    handle_data-append env 7 runtime [] [] first_chunk (0 ∷ 1 ∷ 98 ∷ []) ((99 ∷ []) ∷ [])
      ((98 ∷ []) ∷ []) (0 ∷ 0 ∷ []) [] registered first_bytes first_split second_split first_fine

zero_length : from_be_bytes (0 ∷ 0 ∷ 0 ∷ 0 ∷ []) ≡ 0
unfolding from_be_bytes
zero_length = refl

-- A packet of one byte, then a length of 0.
whole_then_bad :
    [] ++ (0 ∷ 0 ∷ 0 ∷ 1 ∷ 99 ∷ 0 ∷ 0 ∷ 0 ∷ 0 ∷ [])
    ≡ stream_wire ((99 ∷ []) ∷ []) ++ (0 ∷ 0 ∷ 0 ∷ 0 ∷ [])
unfolding u32_bytes
whole_then_bad = refl

handle_data-bad_length_example :
    handle_data env 7 (0 ∷ 0 ∷ 0 ∷ 1 ∷ 99 ∷ 0 ∷ 0 ∷ 0 ∷ 0 ∷ []) (runtime, [])
    ≡ (ok tt, (handle_channel_close 7 runtime, []))
handle_data-bad_length_example =
    handle_data-bad_length env 7 runtime [] [] (0 ∷ 0 ∷ 0 ∷ 1 ∷ 99 ∷ 0 ∷ 0 ∷ 0 ∷ 0 ∷ [])
      ((99 ∷ []) ∷ []) (0 ∷ 0 ∷ 0 ∷ 0 ∷ []) registered whole_then_bad
      ((omega arith, omega arith), tt) (omega arith) (rw zero_length refl)

-- The handler's `init` answers 3, as the trait's own method does.
dispatch_packet-encode_init_example :
    (encode_init 4 ≡ frame fxp_init (version_fields 4))
    × (dispatch_packet env (fxp_init ∷ version_fields 4) runtime
        ≡ (ok (frame fxp_version (version_fields (max 3 3))), settled env 3 0 runtime))
    × (decode_version (version_fields (max 3 3)) ≡ ok (max 3 3, []))
unfolding default_handler register_channel new_runtime
dispatch_packet-encode_init_example =
    dispatch_packet-encode_init env 4 3 0 runtime (omega arith) (omega arith) (omega arith) refl
