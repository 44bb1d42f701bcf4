-- ===== src/Server/Routes.antt =====
-- crates/russh-extra/src/server.rs: what a builder makes of its configuration, and which of its
-- handlers an exec request reaches.
use russh_extra.Base.{
  ℕ, ◌≡◌, ◌<◌, refl, sym, ap, Bytes, Text, true, Option, none, some, List, [], ◌∷◌, arith, is_some,
  length,
}
use russh_extra.Core.Error.{Result, ok, err}
use russh_extra.Sftp.Handler.{Call}
use russh_extra.Server.Context.{ExecContext, ExecResponse}
use russh_extra.Server.Runtime.{ServerRuntime, ServerSession, RusshSession, Step, fail}
use russh_extra.Server.Handler.{ServerHandler}
use russh_extra.Server.HostKey.{KeyFiles, load_all}
use russh_extra.Server.Builder.{ServerBuilder, Server, handler, into_runtime, with_host_keys, build}
use russh_extra.Server.Exec.{route_or, as_str, exec_as, exec_request, unauthenticated}

with_fallback :
    {V : Type 0} (command : Option Text) (routes : List (Text × V)) (fallback : V)
    → is_some (route_or command routes (some fallback)) ≡ true
unfolding route_or
with_fallback none routes fallback = refl
with_fallback (some command) routes fallback = ground arith

elim-some :
    {V A : Type 0} (o : Option V) (f : V → A) (m n : A)
    → is_some o ≡ true
    → (elim o as (λ _. A) [ some v ↦ f v | none ↦ m ])
      ≡ (elim o as (λ _. A) [ some v ↦ f v | none ↦ n ])
elim-some none f m n h = ground arith
elim-some (some v) f m n h = refl

module _ {S K C F R T H : Type 0} (methods : ServerHandler S K C F) (b : ServerBuilder S K C F H)
    (session : RusshSession R T) where
  abbrev with_exec :
      List (Text × (ExecContext → Call S ExecResponse))
      → Option (ExecContext → Call S ExecResponse)
      → ServerRuntime S K C F
  with_exec routes fallback = record (into_runtime (handler methods b)) {
    exec_routes = routes;
    fallback_exec = fallback;
  }

  exec_as-handler :
      (routes : List (Text × (ExecContext → Call S ExecResponse)))
      (fallback : Option (ExecContext → Call S ExecResponse)) (channel : ℕ) (command : Bytes)
      (username : Text)
      → exec_as (into_runtime (handler methods b)) session channel command username
        ≡ exec_as (with_exec routes fallback) session channel command username
  unfolding exec_as handler into_runtime
  exec_as-handler routes fallback channel command username =
      elim-some _ _ _ _
        (with_fallback (as_str command) b.exec_routes_streaming methods.streaming_exec)

  -- On a server with a `ServerHandler`, an exec request has the same result and effect whatever
  -- buffered routes are registered and whatever the handler's own buffered method does.
  pub exec_request-handler :
      (routes : List (Text × (ExecContext → Call S ExecResponse)))
      (fallback : Option (ExecContext → Call S ExecResponse)) (channel : ℕ) (command : Bytes)
      (w : ServerSession S F × T)
      → exec_request (into_runtime (handler methods b)) session channel command w
        ≡ exec_request
            (record (into_runtime (handler methods b)) {
              exec_routes = routes;
              fallback_exec = fallback;
            })
            session
            channel
            command
            w
  unfolding exec_request
  exec_request-handler routes fallback channel command (st, t) =
      elim st.username
        as (λ u.
          (elim u as (λ _. Step R (ServerSession S F × T) (Unit {0})) [
            | none ↦ fail unauthenticated
            | some username ↦
                exec_as (into_runtime (handler methods b)) session channel command username
          ])
            (st, t)
          ≡ (elim u as (λ _. Step R (ServerSession S F × T) (Unit {0})) [
            | none ↦ fail unauthenticated
            | some username ↦ exec_as (with_exec routes fallback) session channel command username
          ])
              (st, t)) [
                | none ↦ refl
                | some username ↦
                    ap (λ m. m (st, t)) (exec_as-handler routes fallback channel command username)
              ]

module _ {S K C F H : Type 0} (files : KeyFiles H) (b : ServerBuilder S K C F H) where
  abbrev from_ok : Server S K C F H → Result (Server S K C F H) → Server S K C F H
  from_ok server (ok s) = s
  from_ok server (err e) = server

  -- What `build` checks, of the keys that were loaded.
  abbrev IsBuilt : Server S K C F H → Type 0
  IsBuilt server =
      (0 < length server.host_keys)
      × (server.shutdown_grace ≡ b.shutdown_grace)
      × (server.runtime ≡ into_runtime b)

  with_host_keys-ok :
      (server : Server S K C F H) (keys : List H)
      → with_host_keys b keys ≡ ok server
      → (keys ≡ server.host_keys) × IsBuilt server
  unfolding with_host_keys
  with_host_keys-ok server [] h = ground arith
  with_host_keys-ok server (key ∷ keys) h =
      let same = ap (from_ok server) h in
      let filled = ap (λ s. length s.host_keys) same in
      (
        ap (λ s. s.host_keys) same,
        (
          omega (arith, filled),
          sym (ap (λ s. s.shutdown_grace) same),
          sym (ap (λ s. s.runtime) same),
        ),
      )

  loaded-ok :
      (server : Server S K C F H) (r : Result (List H))
      → (elim r as (λ _. Result (Server S K C F H)) [
        | err e ↦ err e
        | ok keys ↦ with_host_keys b keys
      ])
        ≡ ok server
      → (r ≡ ok server.host_keys) × IsBuilt server
  loaded-ok server (err e) h = ground arith
  loaded-ok server (ok keys) h =
      let found = with_host_keys-ok server keys h in (ap ok found.0, found.1)

  -- When `build` succeeds, the limit of sessions is not zero, the host keys are those that were
  -- loaded and there is at least one, and the server has the callbacks and the grace period of
  -- the builder.
  pub build-ok :
      (server : Server S K C F H)
      → build files b ≡ ok server
      → (0 < b.config.max_sessions)
        × (load_all files b.host_keys ≡ ok server.host_keys)
        × (0 < length server.host_keys)
        × (server.shutdown_grace ≡ b.shutdown_grace)
        × (server.runtime ≡ into_runtime b)
  unfolding build
  build-ok server h =
      let (keys, built) = loaded-ok server (load_all files b.host_keys) (ground arith) in
      (ground arith, keys, built.0, built.1, built.2)
