-- ===== src/Sftp/Exchange/OverTheWire.antt =====
-- One request and its answer through both runtimes, from the bytes of the client's method to the
-- result that is delivered to it.
use russh_extra.Base.{
  ℕ, suc, ◌+◌, ◌<◌, ◌%◌, ◌^◌, ◌≡◌, refl, sym, ap, ◌∙◌, ◌++◌, ◌∷◌, [], Bytes, true, some, length,
  append_assoc, append-nil, arith,
}
use russh_extra.Base.Word.{IsU32, as_u32, u32_bytes}
use russh_extra.Base.Assoc.{lookup, insert, remove, contains_key}
use russh_extra.Core.Error.{ok}
use russh_extra.Sftp.Wire.{frame, frame_len, push_u32, max_sftp_packet_size}
use russh_extra.Sftp.Framing.{complete, split_packets}
use russh_extra.Sftp.Framing.Stream.{packet_wire, after, split_packets-stream}
use russh_extra.Sftp.Server.Runtime.{SftpServerRuntime, Surroundings}
use russh_extra.Sftp.Server.Dispatch.{
  dispatch_packet, write_response, serve_packets, after_split, handle_data,
}
use russh_extra.Sftp.Client.Runtime.{
  ClientState, deliver, dispatch_response, dispatch_all, incoming, read_task,
  after_split as read_split,
}
use russh_extra.Sftp.Exchange.Fields.{
  Request, IsSendableRequest, packet_type, fields, encode_request, encode_request_lem,
}
use russh_extra.Sftp.Exchange.Answers.{Answer, encode_answer, perform}
use russh_extra.Sftp.Exchange.Serving.{dispatch_packet-perform, served}
use russh_extra.Sftp.Exchange.Replies.{
  IsSendableAnswer, response_of, answer_fields, encode_answer_lem, decode_response-answer_fields,
}
use russh_extra.Sftp.Server.Chunks.{handle_data_buffered}

-- A frame that is not too long is its packet behind the length.
pub frame-packet_wire :
    (t : ℕ) (payload : Bytes)
    → length payload < max_sftp_packet_size
    → frame t payload ≡ packet_wire (t ∷ payload)
unfolding frame frame_len push_u32
frame-packet_wire t payload h =
    let len : (1 + as_u32 (length payload)) % 2 ^ 32 ≡ suc (length payload) = omega arith in
    rw len (append_assoc (u32_bytes (suc (length payload))) (t ∷ []) payload)

split_packets-frame :
    (t : ℕ) (payload : Bytes)
    → length payload < max_sftp_packet_size
    → split_packets (frame t payload) ≡ complete ((t ∷ payload) ∷ []) []
split_packets-frame t payload h =
    ap split_packets (frame-packet_wire t payload h ∙ sym (append-nil _) ∙ sym (append-nil _))
    ∙ split_packets-stream ((t ∷ payload) ∷ []) [] ((omega arith, omega arith), tt)
    ∙ ap (after ((t ∷ payload) ∷ [])) nothing
  where
    nothing : split_packets [] ≡ complete [] []
    nothing = unfold split_packets in refl

module _ {S T : Type 0} (env : Surroundings S T) where
  -- The runtime and the session after the answer `a` was written on a channel.
  abbrev pub answering : ℕ → ℕ → Answer × S → SftpServerRuntime S × T → SftpServerRuntime S × T
  answering channel id (a, s) (rt, session) = (
    record rt { handler_state = s; buffers = insert channel [] rt.buffers },
    (env.session_data channel (encode_answer id a) session).1,
  )

  serve_one :
      (channel : ℕ) (p resp : Bytes) (rt rt' : SftpServerRuntime S) (session : T)
      → dispatch_packet env p rt ≡ (ok resp, rt')
      → (env.session_data channel resp session).0 ≡ true
      → serve_packets env channel (p ∷ []) (rt, session)
        ≡ (ok tt, (rt', (env.session_data channel resp session).1))
  unfolding serve_packets write_response
  serve_one channel p resp rt rt' session e taken =
      rw (ap (λ d. d.0) e, serve_packets, write_response)
        (rw taken (ap (λ d. (ok tt, (d.1, (env.session_data channel resp session).1))) e))

  dispatch_fields :
      (id : ℕ) (r : Request) (rt : SftpServerRuntime S)
      → IsU32 id
      → IsSendableRequest r
      → dispatch_packet env (packet_type r ∷ fields id r) rt
        ≡ served env id (perform env.handler env.display id r rt.handler_state) rt
  dispatch_fields id r rt hid hr =
      ap (λ w. dispatch_packet env (packet_type r ∷ w) rt) (sym (append-nil (fields id r)))
      ∙ dispatch_packet-perform env id r [] rt hid hr

  -- When the encoded bytes of any of the 18 requests arrive in one piece on a registered channel
  -- with an empty buffer, with an id and fields in range, a payload below the size limit and a
  -- session that accepts the answer, `handle_data` succeeds, calls the handler exactly as
  -- `perform` says, writes exactly the encoding of the answer under the id of the request, and
  -- leaves the buffer empty.
  pub handle_data-encode_request :
      (channel id : ℕ) (r : Request) (rt : SftpServerRuntime S) (session : T)
      → lookup channel rt.buffers ≡ some []
      → IsU32 id
      → IsSendableRequest r
      → length (fields id r) < max_sftp_packet_size
      → let (a, s) = perform env.handler env.display id r rt.handler_state in
        (env.session_data channel (encode_answer id a) session).0 ≡ true
        → handle_data env channel (encode_request id r) (rt, session) ≡ (
          ok tt,
          answering channel id
              (perform env.handler env.display id r rt.handler_state)
              (rt, session),
        )
  unfolding after_split
  handle_data-encode_request channel id r rt session e hid hr size taken =
      handle_data_buffered env channel [] (encode_request id r) rt session e
      ∙ ap (λ x. after_split env channel x (rt, session))
          (ap split_packets (encode_request_lem id r) ∙ split_packets-frame _ (fields id r) size)
      ∙ serve_one channel _ _ _ _ session
          (dispatch_fields id r (record rt { buffers = insert channel [] rt.buffers }) hid hr) taken

-- When the encoded bytes of an answer, with an id and contents in range and a payload below the
-- size limit, reach a read task with an empty buffer while a request with that id waits, that
-- request is removed and given the response once, the read task goes on with an empty buffer,
-- and nothing else changes.
pub read_task-encode_answer :
    (id : ℕ) (a : Answer) (st : ClientState)
    → IsU32 id
    → IsSendableAnswer a
    → length (answer_fields id a) < max_sftp_packet_size
    → contains_key st.pending id ≡ true
    → read_task (incoming (encode_answer id a)) (some [], st) ≡ (
      some [],
      record st {
        pending = remove id st.pending;
        delivered = st.delivered ++ (id, ok (response_of a)) ∷ [];
      },
    )
unfolding read_task read_split dispatch_all dispatch_response deliver
read_task-encode_answer id a st hid ha size waiting =
    ap (λ x. read_split x st)
      (ap split_packets (encode_answer_lem id a) ∙ split_packets-frame _ (answer_fields id a) size)
    ∙ ap (λ d. (some [], deliver d st)) (decode_response-answer_fields id a hid ha)
    ∙ rw waiting
