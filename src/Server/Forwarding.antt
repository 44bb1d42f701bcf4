-- ===== src/Server/Forwarding.antt =====
-- crates/russh-extra/src/server.rs: forwarding, and the channels that a peer opens for it. Each asks
-- its callback only when there is one and the user is known.
use russh_extra.Base.{ℕ, Text, Bool, true, false, none, some}
use russh_extra.Core.Error.{Result, ok, err}
use russh_extra.Server.Runtime.{
  ServerRuntime, ServerSession, RusshSession, close, Callback, Step, ◌>>=◌, ◌>>◌, ret, fail,
  current, call, call_or_fail, attempt,
}

-- A global request: no callback or no user refuses it.
unfoldable pub ask :
    {R S F T C : Type 0}
    → Callback S C Bool
    → (ServerSession S F → Text → C)
    → Step R (ServerSession S F × T) Bool
ask none context = ret false
ask (some handler) context = current >>= λ st. elim st.username [
  | none ↦ ret false
  | some username ↦ call_or_fail (handler (context st username))
]

-- A channel that is not opened is closed.
unfoldable pub settle :
    {R S F T : Type 0} → RusshSession R T → ℕ → Result Bool → Step R (ServerSession S F × T) Bool
settle session channel (ok true) = ret true
settle session channel (ok false) = attempt session (close channel) >> ret false
settle session channel (err e) = attempt session (close channel) >> fail e

unfoldable pub ask_open :
    {R S F T C : Type 0}
    → RusshSession R T
    → ℕ
    → Callback S C Bool
    → (ServerSession S F → Text → C)
    → Step R (ServerSession S F × T) Bool
ask_open session channel none context = attempt session (close channel) >> ret false
ask_open session channel (some handler) context = current >>= λ st. elim st.username [
  | none ↦ attempt session (close channel) >> ret false
  | some username ↦ call (handler (context st username)) >>= λ result. settle session channel result
]

module _ {S K C F R T : Type 0} (runtime : ServerRuntime S K C F) where
  unfoldable pub tcpip_forward : Text → ℕ → Step R (ServerSession S F × T) Bool
  tcpip_forward address port = ask runtime.tcpip_forward_handler λ st username. record {
    session_id = st.session_id;
    username = username;
    address = address;
    port = port;
  }

  unfoldable pub cancel_tcpip_forward : Text → ℕ → Step R (ServerSession S F × T) Bool
  cancel_tcpip_forward address port = ask runtime.cancel_tcpip_forward_handler λ st username.
      record { session_id = st.session_id; username = username; address = address; port = port }

  unfoldable pub streamlocal_forward : Text → Step R (ServerSession S F × T) Bool
  streamlocal_forward socket_path = ask runtime.streamlocal_forward_handler λ st username. record {
    session_id = st.session_id;
    username = username;
    socket_path = socket_path;
  }

  unfoldable pub cancel_streamlocal_forward : Text → Step R (ServerSession S F × T) Bool
  cancel_streamlocal_forward socket_path =
      ask runtime.cancel_streamlocal_forward_handler λ st username. record {
        session_id = st.session_id;
        username = username;
        socket_path = socket_path;
      }

module _ {S K C F R T : Type 0} (runtime : ServerRuntime S K C F) (session : RusshSession R T) where
  unfoldable pub channel_open_direct_tcpip :
      ℕ → Text → ℕ → Text → ℕ → Step R (ServerSession S F × T) Bool
  channel_open_direct_tcpip channel host_to_connect port_to_connect originator_address
        originator_port =
      ask_open session channel runtime.direct_tcpip_handler λ st username. record {
        session_id = st.session_id;
        username = username;
        host_to_connect = host_to_connect;
        port_to_connect = port_to_connect;
        originator_address = originator_address;
        originator_port = originator_port;
      }

  unfoldable pub channel_open_forwarded_tcpip :
      ℕ → Text → ℕ → Text → ℕ → Step R (ServerSession S F × T) Bool
  channel_open_forwarded_tcpip channel connected_address connected_port originator_address
        originator_port =
      ask_open session channel runtime.forwarded_tcpip_handler λ st username. record {
        session_id = st.session_id;
        username = username;
        connected_address = connected_address;
        connected_port = connected_port;
        originator_address = originator_address;
        originator_port = originator_port;
      }

  unfoldable pub channel_open_direct_streamlocal : ℕ → Text → Step R (ServerSession S F × T) Bool
  channel_open_direct_streamlocal channel socket_path =
      ask_open session channel runtime.direct_streamlocal_handler λ st username. record {
        session_id = st.session_id;
        username = username;
        socket_path = socket_path;
      }

  unfoldable pub channel_open_x11 : ℕ → Text → ℕ → Step R (ServerSession S F × T) Bool
  channel_open_x11 channel originator_address originator_port =
      ask_open session channel runtime.x11_channel_handler λ st username. record {
        session_id = st.session_id;
        username = username;
        originator_address = originator_address;
        originator_port = originator_port;
      }
