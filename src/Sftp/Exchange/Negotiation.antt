-- ===== src/Sftp/Exchange/Negotiation.antt =====
-- The version exchange: the client's `encode_init`, the server's `handle_init`, and the client's
-- `decode_version`.
use russh_extra.Base.{
  ℕ, ◌≤◌, ◌<◌, ◌-◌, min, max, ◌/◌, ◌≡◌, refl, ◌∙◌, ◌++◌, ◌∷◌, [], Bytes, ltb, false, true, arith,
  length,
}
use russh_extra.Base.Word.{IsU32, u32_bytes}
use russh_extra.Core.Error.{ok}
use russh_extra.Sftp.Wire.{Pop, ◌>>=◌, ret, frame, pop_u32}
use russh_extra.Sftp.Wire.Reads.{pop_u32-Reads, >>=-eq, pushes, from_start-eq}
use russh_extra.Sftp.PacketType.{fxp_init, fxp_version}
use russh_extra.Sftp.Request.{encode_init}
use russh_extra.Sftp.Response.{
  Extensions, remaining, pop_extensions, decode_version, decode_init_request,
  encode_version_response,
}
use russh_extra.Sftp.Server.Runtime.{SftpServerRuntime, Surroundings}
use russh_extra.Sftp.Server.Handlers.{decoding, negotiate, settle_version, handle_init}
use russh_extra.Sftp.Server.Dispatch.{dispatch_packet}

-- A version and no extensions.
abbrev pub version_fields : ℕ → Bytes
version_fields version = u32_bytes version ++ (u32_bytes 0 ++ [])

abbrev pub extensions_at : ℕ → ℕ → Pop (ℕ × Extensions)
extensions_at version count = remaining >>= λ left.
    pop_extensions (min (min count (left / 8)) 128) [] >>= λ extensions. ret (version, extensions)

extensions_none :
    (version : ℕ) (slice : Bytes) (pos : ℕ)
    → extensions_at version 0 slice pos ≡ ok ((version, []), pos)
unfolding remaining pop_extensions
extensions_none version slice pos =
    let none_left : min (min 0 ((length slice - pos) / 8)) 128 ≡ 0 = omega arith in
    rw none_left refl

decode_version-version_fields :
    (version : ℕ) → IsU32 version → decode_version (version_fields version) ≡ ok (version, [])
unfolding decode_version
decode_version-version_fields version h =
    let first = (pop_u32-Reads version h).run [] (u32_bytes 0 ++ []) in
    let second = (pop_u32-Reads 0 (omega arith)).run (u32_bytes version) [] in
    from_start-eq _ (
      >>=-eq pop_u32 (λ v. pop_u32 >>= λ count. extensions_at v count) first
      ∙ >>=-eq pop_u32 (extensions_at version) second
      ∙ extensions_none version _ _)

encode_init_lem : (version : ℕ) → encode_init version ≡ frame fxp_init (version_fields version)
unfolding encode_init
encode_init_lem version = simp pushes

encode_version_response_lem :
    (version : ℕ) → encode_version_response version [] ≡ frame fxp_version (version_fields version)
unfolding encode_version_response
encode_version_response_lem version = simp pushes

decode_init-version_fields :
    (version : ℕ) → IsU32 version → decode_init_request (version_fields version) ≡ ok (version, [])
unfolding decode_init_request
decode_init-version_fields version h = decode_version-version_fields version h

module _ {S T : Type 0} (env : Surroundings S T) where
  handle_init_lem :
      (version : ℕ) (rt : SftpServerRuntime S)
      → IsU32 version
      → handle_init env (version_fields version) rt ≡ negotiate env (version, []) rt
  unfolding handle_init decoding
  handle_init_lem version rt h = rw (decode_init-version_fields version h, decoding) refl

  -- The runtime and the version behind a successful call of the handler's `init`.
  abbrev pub settled : ℕ → S → SftpServerRuntime S → SftpServerRuntime S
  settled chosen s rt = record rt { handler_state = s; version = max chosen 3; negotiated = true }

  -- For a version of at least 3 and a handler whose `init` succeeds with a version, both in the
  -- range of u32: `encode_init` frames the version and a count of 0; the server answers it with
  -- the greater of 3 and the handler's version and no extensions, stores that version and is
  -- negotiated; and the client decodes the answer to that version and no extensions.
  pub dispatch_packet-encode_init :
      (version chosen : ℕ) (s : S) (rt : SftpServerRuntime S)
      → IsU32 version
      → IsU32 chosen
      → 3 ≤ version
      → env.handler.init version [] rt.handler_state ≡ (ok chosen, s)
      → (encode_init version ≡ frame fxp_init (version_fields version))
        × (dispatch_packet env (fxp_init ∷ version_fields version) rt
            ≡ (ok (frame fxp_version (version_fields (max chosen 3))), settled chosen s rt))
        × (decode_version (version_fields (max chosen 3)) ≡ ok (max chosen 3, []))
  unfolding dispatch_packet negotiate settle_version
  dispatch_packet-encode_init version chosen s rt hv hc lo e =
      let agreed : ltb version 3 ≡ false = ground arith in
      (
        encode_init_lem version,
        handle_init_lem version rt hv
            ∙ rw (agreed, e, settle_version, encode_version_response_lem (max chosen 3)) refl,
        decode_version-version_fields (max chosen 3) (omega arith),
      )

  -- For a version below 3 without extensions, the server answers with version 3 and no
  -- extensions, and changes nothing in its runtime, the handler's state included.
  pub dispatch_packet-old_version :
      (version : ℕ) (rt : SftpServerRuntime S)
      → version < 3
      → dispatch_packet env (fxp_init ∷ version_fields version) rt
        ≡ (ok (frame fxp_version (version_fields 3)), rt)
  unfolding dispatch_packet negotiate
  dispatch_packet-old_version version rt lo =
      let refused : ltb version 3 ≡ true = ground arith in
      handle_init_lem version rt (omega arith) ∙ rw (refused, encode_version_response_lem 3) refl
