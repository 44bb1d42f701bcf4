-- ===== src/Shell/Requests.antt =====
-- crates/russh-extra/src/shell.rs: what opening a shell asks of the server.
use russh_extra.Base.{
  Text, Bool, true, false, Option, none, some, List, [], ◌∷◌, ◌++◌, ◌≡◌, refl, sym, ap, ◌∙◌,
  append_assoc, append-nil,
}
use russh_extra.Client.Command.{ChannelMsg, success}
use russh_extra.Core.Error.{Error, Result, ok}
use russh_extra.Shell.Handle.{ShellHandle, new_handle}
use russh_extra.Shell.Open.{
  RusshError, X11Params, ShellRequest, request_pty, set_env, request_x11, agent_forward,
  request_shell, Shell, Opened, opened, ask, expect_success, send_env, ask_pty, ask_x11, ask_agent,
  on_channel, open_shell,
}

-- A server that opens the channel and answers every request with success; the state is what it was
-- asked.
abbrev pub opens {ℓ} : {P : Type ℓ} → List P → Opened × List P
opens t = (opened, t)

abbrev pub takes {ℓ} : {P : Type ℓ} → P → List P → Option RusshError × List P
takes request t = (none, t ++ request ∷ [])

abbrev pub agrees {ℓ} : {P : Type ℓ} → List P → Option ChannelMsg × List P
agrees t = (some success, t)

module _ {P : Type 0} where
  abbrev env_requests : List (Text × Text) → List (ShellRequest P)
  env_requests [] = []
  env_requests ((name, value) ∷ env) = set_env name value ∷ env_requests env

  abbrev pty_requests : Option P → List (Text × Text) → List (ShellRequest P)
  pty_requests none env = []
  pty_requests (some pty) env = request_pty pty ∷ env_requests env

  abbrev x11_requests : Option X11Params → List (ShellRequest P)
  x11_requests none = []
  x11_requests (some params) = request_x11 params ∷ []

  abbrev agent_requests : Bool → List (ShellRequest P)
  agent_requests true = agent_forward ∷ []
  agent_requests false = []

  -- The variables are asked for behind a PTY only.
  abbrev pub shell_requests : Shell P → List (ShellRequest P)
  shell_requests shell =
      pty_requests shell.pty shell.env
      ++ (x11_requests shell.x11_params
          ++ (agent_requests shell.want_agent_forward ++ request_shell ∷ []))

module _ {P : Type 0} (map_channel_open_error : RusshError → Error) where
  send_env-takes :
      (env : List (Text × Text)) (t : List (ShellRequest P))
      → send_env opens takes agrees map_channel_open_error env t ≡ t ++ env_requests env
  unfolding send_env
  send_env-takes [] t = sym (append-nil t)
  send_env-takes ((name, value) ∷ env) t =
      send_env-takes env (t ++ set_env name value ∷ [])
      ∙ append_assoc t (set_env name value ∷ []) (env_requests env)

  module _ (rest : List (ShellRequest P) → Result ShellHandle × List (ShellRequest P))
      (t : List (ShellRequest P)) where
    ask_agent-takes :
        (want : Bool)
        → ask_agent opens takes agrees map_channel_open_error want rest t
          ≡ rest (t ++ agent_requests want)
    unfolding ask_agent ask
    ask_agent-takes false = ap rest (sym (append-nil t))
    ask_agent-takes true = refl

    ask_x11-takes :
        (params : Option X11Params)
        → ask_x11 opens takes agrees map_channel_open_error params rest t
          ≡ rest (t ++ x11_requests params)
    unfolding ask_x11 ask
    ask_x11-takes none = ap rest (sym (append-nil t))
    ask_x11-takes (some params) = refl

    ask_pty-takes :
        (pty : Option P) (env : List (Text × Text))
        → ask_pty opens takes agrees map_channel_open_error pty env rest t
          ≡ rest (t ++ pty_requests pty env)
    unfolding ask_pty ask expect_success
    ask_pty-takes none env = ap rest (sym (append-nil t))
    ask_pty-takes (some pty) env = ap rest (
        send_env-takes env (t ++ request_pty pty ∷ [])
        ∙ append_assoc t (request_pty pty ∷ []) (env_requests env))

  -- On a server that opens the channel and answers every request with success, opening a
  -- connected shell succeeds and asks in this order: for the PTY if one is set, then for each
  -- variable if a PTY is set, for X11 and for the agent if they are wanted, and for the shell.
  pub open_shell-asks :
      (shell : Shell P) (t : List (ShellRequest P))
      → shell.connected ≡ true
      → open_shell opens takes agrees map_channel_open_error shell t
        ≡ (ok new_handle, t ++ shell_requests shell)
  unfolding open_shell on_channel ask expect_success
  open_shell-asks shell t c =
      let last : List (ShellRequest P) → Result ShellHandle × List (ShellRequest P) =
        λ x. (ok new_handle, x ++ request_shell ∷ []) in
      let agent =
        ask_agent opens takes agrees map_channel_open_error shell.want_agent_forward last in
      let x11 = ask_x11 opens takes agrees map_channel_open_error shell.x11_params agent in
      let asked = t ++ pty_requests shell.pty shell.env in
      let asked' = asked ++ x11_requests shell.x11_params in
      rw c (
        ask_pty-takes x11 t shell.pty shell.env
        ∙ ask_x11-takes agent asked shell.x11_params
        ∙ ask_agent-takes last asked' shell.want_agent_forward
        ∙ ap (λ x. (ok new_handle, x)) (simp (append_assoc)))
