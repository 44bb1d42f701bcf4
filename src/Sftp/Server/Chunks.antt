-- ===== src/Sftp/Server/Chunks.antt =====
-- How the transport cuts the stream: two calls of `handle_data` against one with both chunks.
use russh_extra.Base.{
  ℕ, ◌≤◌, ◌≡◌, refl, sym, ap, ◌∙◌, ◌++◌, Bytes, List, [], ◌∷◌, true, some, length, inl, inr,
  Bool-cases, append_assoc, take, ==_iff,
}
use russh_extra.Base.Word.{AllBytes, from_be_bytes}
use russh_extra.Base.Assoc.{lookup, insert, insert-insert, lookup-insert}
use russh_extra.Core.Error.{ok}
use russh_extra.Sftp.Framing.{complete, is_bad_length, split_packets}
use russh_extra.Sftp.Framing.Stream.{stream_wire, AllPackets, after, split_packets-stream}
use russh_extra.Sftp.Framing.Accounts.{split_packets-append, bad_length_stops}
use russh_extra.Sftp.Server.Runtime.{SftpServerRuntime, Surroundings, handle_channel_close}
use russh_extra.Sftp.Server.Dispatch.{
  dispatch_packet, write_response, serve_packets, after_split, handle_data,
}
use russh_extra.Sftp.Server.Local.{placed, dispatch_packet-IsLocal}

module _ {S T : Type 0} (env : Surroundings S T) (channel : ℕ) where
  -- The packets are served alike, whatever the buffers hold.
  serve_packets-free :
      (ps : List Bytes) (rt : SftpServerRuntime S) (session : T) (b : List (ℕ × Bytes))
      (c : List (ℕ × Unit {0}))
      → serve_packets env channel ps (placed b c rt, session) ≡ (
        (serve_packets env channel ps (rt, session)).0,
        (
          placed b c (serve_packets env channel ps (rt, session)).1.0,
          (serve_packets env channel ps (rt, session)).1.1,
        ),
      )
  unfolding serve_packets
  serve_packets-free [] rt session b c = refl
  serve_packets-free (p ∷ ps) rt session b c =
      let (response, rt') = dispatch_packet env p rt in
      let written = write_response env channel response session in
      rw ((dispatch_packet-IsLocal env p).free rt b c, serve_packets)
        (elim (Bool-cases written.0) [
          | inl going ↦ rw going (serve_packets-free ps rt' written.1 b c)
          | inr refused ↦ rw refused refl
        ])

  -- A list of packets is served by serving its parts in turn, if no response is refused in the first.
  serve_packets-append :
      (ps qs : List Bytes) (rt : SftpServerRuntime S) (session : T)
      → (serve_packets env channel ps (rt, session)).0 ≡ ok tt
      → serve_packets env channel (ps ++ qs) (rt, session)
        ≡ serve_packets env channel qs (serve_packets env channel ps (rt, session)).1
  unfolding serve_packets
  serve_packets-append [] qs rt session h = refl
  serve_packets-append (p ∷ ps) qs rt session h =
      let (response, rt') = dispatch_packet env p rt in
      let written = write_response env channel response session in
      elim (Bool-cases written.0) [
        | inl going ↦ rw going (serve_packets-append ps qs rt' written.1 (rw going at h))
        | inr refused ↦ cc (rw refused at h)
      ]

  -- A call on a registered channel goes by what stands in the buffer and the new bytes.
  pub handle_data_buffered :
      (buf bytes : Bytes) (rt : SftpServerRuntime S) (session : T)
      → lookup channel rt.buffers ≡ some buf
      → handle_data env channel bytes (rt, session)
        ≡ after_split env channel (split_packets (buf ++ bytes)) (rt, session)
  unfolding handle_data
  handle_data_buffered buf bytes rt session e = rw (e, handle_data)

  -- On a registered channel, when the buffer and the first chunk split without a bad length, the
  -- rest and the second chunk do so too, and the first call succeeds, `handle_data` on the two
  -- chunks joined gives the same result, runtime and session as the call on the first chunk and
  -- then the call on the second.
  pub handle_data-append :
      (rt : SftpServerRuntime S) (session : T) (buf chunk more : Bytes) (ps qs : List Bytes)
      (rest rest' : Bytes)
      → lookup channel rt.buffers ≡ some buf
      → AllBytes (buf ++ chunk)
      → split_packets (buf ++ chunk) ≡ complete ps rest
      → split_packets (rest ++ more) ≡ complete qs rest'
      → (handle_data env channel chunk (rt, session)).0 ≡ ok tt
      → handle_data env channel (chunk ++ more) (rt, session)
        ≡ handle_data env channel more (handle_data env channel chunk (rt, session)).1
  unfolding after_split
  handle_data-append rt session buf chunk more ps qs rest rest' e bytes first second fine =
      let b = rt.buffers in
      let c = rt.channels in
      let served = serve_packets env channel ps (rt, session) in
      let one : handle_data env channel chunk (rt, session)
          ≡ (served.0, (placed (insert channel rest b) c served.1.0, served.1.1)) =
        handle_data_buffered buf chunk rt session e
        ∙ ap (λ x. after_split env channel x (rt, session)) first
        ∙ serve_packets-free ps rt session (insert channel rest b) c in
      let found : lookup channel (insert channel rest b) ≡ some rest =
        lookup-insert channel channel rest b ∙ rw ((==_iff channel channel).1 refl) in
      let two : handle_data env channel more
            (placed (insert channel rest b) c served.1.0, served.1.1)
          ≡ serve_packets env channel qs
              (placed (insert channel rest' b) c served.1.0, served.1.1) =
        handle_data_buffered rest more (placed (insert channel rest b) c served.1.0) served.1.1
          found
        ∙ ap
            (λ x.
              after_split env channel x (placed (insert channel rest b) c served.1.0, served.1.1))
            second
        ∙ ap (λ m. serve_packets env channel qs (placed m c served.1.0, served.1.1))
            (insert-insert channel rest rest' b) in
      let whole : split_packets (buf ++ (chunk ++ more)) ≡ complete (ps ++ qs) rest' =
        ap split_packets (sym (append_assoc buf chunk more))
        ∙ split_packets-append (buf ++ chunk) more ps rest bytes first
        ∙ ap (after ps) second in
      let done : served.0 ≡ ok tt = sym (ap (λ d. d.0) one) ∙ fine in
      let joint = serve_packets-free ps rt session (insert channel rest' b) c in
      handle_data_buffered buf (chunk ++ more) rt session e
      ∙ ap (λ x. after_split env channel x (rt, session)) whole
      ∙ serve_packets-append ps qs (placed (insert channel rest' b) c rt) session
          (ap (λ d. d.0) joint ∙ done)
      ∙ ap (λ d. serve_packets env channel qs d.1) joint
      ∙ sym two
      ∙ ap (λ d. handle_data env channel more d.1) (sym one)

  -- When the buffer of a registered channel and the new bytes are whole packets and then a
  -- length field that is 0 or above the limit, `handle_data` returns no error, closes the
  -- channel, and serves none of the packets before it: the handler's state and the session are
  -- unchanged.
  pub handle_data-bad_length :
      (rt : SftpServerRuntime S) (session : T) (buf chunk : Bytes) (ps : List Bytes) (bad : Bytes)
      → lookup channel rt.buffers ≡ some buf
      → buf ++ chunk ≡ stream_wire ps ++ bad
      → AllPackets ps
      → 4 ≤ length bad
      → is_bad_length (from_be_bytes (take 4 bad)) ≡ true
      → handle_data env channel chunk (rt, session)
        ≡ (ok tt, (handle_channel_close channel rt, session))
  unfolding after_split
  handle_data-bad_length rt session buf chunk ps bad e whole hs size wrong =
      handle_data_buffered buf chunk rt session e
      ∙ ap (λ x. after_split env channel x (rt, session))
          (ap split_packets whole
            ∙ split_packets-stream ps bad hs
            ∙ ap (after ps) (bad_length_stops bad size wrong))
