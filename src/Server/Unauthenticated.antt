-- ===== src/Server/Unauthenticated.antt =====
-- crates/russh-extra/src/server.rs: a session whose user is not known.
use russh_extra.Base.{ℕ, ◌≡◌, refl, ap, Bytes, Text, Bool, false, none, some, [], arith}
use russh_extra.Core.Error.{Error}
use russh_extra.Server.Runtime.{
  ServerRuntime, ServerSession, RusshSession, Callback, high_level, Handled, done, failed, proceed,
  ret, attempt,
}
use russh_extra.Server.Forwarding as Forwarding
use russh_extra.Server.Forwarding.{ask, ask_open}
use russh_extra.Server.Exec as Exec
use russh_extra.Server.Exec.{unauthenticated}
use russh_extra.Server.Event.{
  request, forward, Outcome, granted, handle, Forward, run_request, run_forward, exec_request,
  tcpip_forward, cancel_tcpip_forward, streamlocal_forward, cancel_streamlocal_forward,
  channel_open_direct_tcpip, channel_open_forwarded_tcpip, channel_open_direct_streamlocal,
  channel_open_x11,
}
use russh_extra.Server.Sessions.{Reach}
use russh_extra.Server.Reachable.{Reach-Sound}

module _ {S F R T : Type 0} where
  -- `false`, and the session as it was.
  pub record IsRefused (r : Handled R Bool × (ServerSession S F × T)) (w : ServerSession S F × T)
      : Type 0 where
    pub result : r.0 ≡ done false
    pub unchanged : r.1.0 ≡ w.0

  ask-IsRefused :
      {D : Type 0} (handler : Callback S D Bool) (context : ServerSession S F → Text → D)
      (w : ServerSession S F × T)
      → w.0.username ≡ none
      → IsRefused (ask handler context w) w
  unfolding ask
  ask-IsRefused none context w h = record { result = refl; unchanged = refl }
  ask-IsRefused (some handler) context w h = record {
    result = ground arith;
    unchanged = ground arith;
  }

  ask_open-IsRefused :
      {D : Type 0} (session : RusshSession R T) (channel : ℕ) (handler : Callback S D Bool)
      (context : ServerSession S F → Text → D) (w : ServerSession S F × T)
      → w.0.username ≡ none
      → IsRefused (ask_open session channel handler context w) w
  unfolding ask_open attempt
  ask_open-IsRefused session channel none context w h = record { result = refl; unchanged = refl }
  ask_open-IsRefused session channel (some handler) context w h = record {
    result = ground arith;
    unchanged = ground arith;
  }

module _ {S K C F R T : Type 0} (runtime : ServerRuntime S K C F) (session : RusshSession R T) where
  run_forward-IsRefused :
      (f : Forward) (w : ServerSession S F × T)
      → w.0.username ≡ none
      → IsRefused (run_forward runtime session f w) w
  unfolding run_forward Forwarding.tcpip_forward Forwarding.cancel_tcpip_forward
      Forwarding.streamlocal_forward Forwarding.cancel_streamlocal_forward
      Forwarding.channel_open_direct_tcpip Forwarding.channel_open_forwarded_tcpip
      Forwarding.channel_open_direct_streamlocal Forwarding.channel_open_x11
  run_forward-IsRefused (tcpip_forward address port) w h = ask-IsRefused _ _ w h
  run_forward-IsRefused (cancel_tcpip_forward address port) w h = ask-IsRefused _ _ w h
  run_forward-IsRefused (streamlocal_forward path) w h = ask-IsRefused _ _ w h
  run_forward-IsRefused (cancel_streamlocal_forward path) w h = ask-IsRefused _ _ w h
  run_forward-IsRefused (channel_open_direct_tcpip channel host port origin origin_port) w h =
      ask_open-IsRefused session channel _ _ w h
  run_forward-IsRefused (channel_open_forwarded_tcpip channel address port origin origin_port) w h =
      ask_open-IsRefused session channel _ _ w h
  run_forward-IsRefused (channel_open_direct_streamlocal channel path) w h =
      ask_open-IsRefused session channel _ _ w h
  run_forward-IsRefused (channel_open_x11 channel origin origin_port) w h =
      ask_open-IsRefused session channel _ _ w h

  exec_request-unauthenticated :
      (channel : ℕ) (command : Bytes) (w : ServerSession S F × T)
      → w.0.username ≡ none
      → Exec.exec_request runtime session channel command w
        ≡ (failed (high_level unauthenticated), w)
  unfolding Exec.exec_request
  exec_request-unauthenticated channel command w h = ground arith

  abbrev outcome : Handled R Bool → Handled R Outcome
  outcome (done b) = done (granted b)
  outcome (failed e) = failed e

  granted-IsRefused :
      (r : Handled R Bool × (ServerSession S F × T)) (w : ServerSession S F × T)
      → IsRefused r w
      → (proceed r (λ b. ret (granted b))).0 ≡ done (granted false)
        × ((proceed r (λ b. ret (granted b))).1.0 ≡ w.0)
  granted-IsRefused (done b, w') w h = (ap outcome h.result, h.unchanged)
  granted-IsRefused (failed e, w') w h = (ap outcome h.result, h.unchanged)

  module _ (display : Error → Text) where
    -- In every state that a session reaches without an accepted authentication, each of the
    -- eight forwarding calls answers `false` and leaves the session and the state of the
    -- callbacks as they were, and an exec request fails with the error for a missing user and
    -- changes nothing.
    pub unauthenticated-handle :
        (w : ServerSession S F × T)
        → Reach runtime session display w []
        → ((f : Forward)
            → (handle runtime session display (forward f) w).0 ≡ done (granted false)
              × ((handle runtime session display (forward f) w).1.0 ≡ w.0))
          × ((channel : ℕ) (command : Bytes)
              → handle runtime session display (request (exec_request channel command)) w
                ≡ (failed (high_level unauthenticated), w))
    unfolding handle run_request
    unauthenticated-handle w r =
        let known = (Reach-Sound runtime session display w [] r).user in
        (
          λ f. granted-IsRefused _ w (run_forward-IsRefused f w known),
          λ channel command.
              ap (λ r. proceed r (λ u. ret (Outcome.finished u)))
                (exec_request-unauthenticated channel command w known),
        )
