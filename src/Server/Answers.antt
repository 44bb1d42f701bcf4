-- ===== src/Server/Answers.antt =====
-- crates/russh-extra/src/server.rs: the answers that a method gives, on a session that takes whatever
-- it is asked.
use russh_extra.Base.{
  ℕ, ◌≡◌, refl, ◌∙◌, Bool, true, false, Option, none, some, List, [], ◌∷◌, if◌then◌else◌,
}
use mathlib.Core.Path.{subst}
use russh_extra.Core.Error.{Result}
use russh_extra.Sftp.Handler.{Call}
use russh_extra.Server.Runtime.{
  ServerSession, RusshSession, Reply, channel_success, channel_failure, send_data, extended_data,
  exit_status_request, exit_signal_request, eof, close, Handled, done, failed, Step, proceed, ◌>>=◌,
  ret, current, modify, call, sent, reply,
}

-- A session that keeps what it is asked, the last reply first, and never fails.
abbrev pub recorder : {R : Type 0} → RusshSession R (List Reply)
recorder r replies = (none, r ∷ replies)

-- What a reply adds to the channels whose requests are answered, with success or failure.
abbrev pub noted : Reply → List ℕ → List ℕ
noted (channel_success channel) channels = channel ∷ channels
noted (channel_failure channel) channels = channel ∷ channels
noted (send_data channel bytes) channels = channels
noted (extended_data channel code bytes) channels = channels
noted (exit_status_request channel n) channels = channels
noted (exit_signal_request channel name core_dumped) channels = channels
noted (eof channel) channels = channels
noted (close channel) channels = channels

abbrev pub answers : List Reply → List ℕ
answers [] = []
answers (r ∷ replies) = noted r (answers replies)

module _ {R S F : Type 0} where
  -- An end without an error, whose answers are `channels`.
  abbrev EndsAt : {A : Type 0} → List ℕ → Handled R A × (ServerSession S F × List Reply) → Type 0
  EndsAt channels (done a, w) = answers w.1 ≡ channels
  EndsAt channels (failed e, w) = ⊥

  -- A method that ends without an error, and whose answers are `f` of those before it.
  pub record Sends {A : Type 0} (f : List ℕ → List ℕ)
      (m : Step R (ServerSession S F × List Reply) A) : Type 0 where
    pub ends : (w : ServerSession S F × List Reply) → EndsAt (f (answers w.1)) (m w)

  -- A method that answers one request, and may then fail.
  pub record IsAnswering {A : Type 0} (channel : ℕ) (m : Step R (ServerSession S F × List Reply) A)
      : Type 0 where
    pub adds : (w : ServerSession S F × List Reply) → answers (m w).1.1 ≡ channel ∷ answers w.1

  -- A method that answers nothing.
  pub record IsSilent {A : Type 0} (m : Step R (ServerSession S F × List Reply) A) : Type 0 where
    pub keeps : (w : ServerSession S F × List Reply) → answers (m w).1.1 ≡ answers w.1

  proceed-EndsAt :
      {A B : Type 0} (g : List ℕ → List ℕ) (channels : List ℕ)
      (r : Handled R A × (ServerSession S F × List Reply))
      {k : A → Step R (ServerSession S F × List Reply) B}
      → EndsAt channels r
      → ((a : A) → Sends g (k a))
      → EndsAt (g channels) (proceed r k)
  proceed-EndsAt g channels (done a, w) {k} h hk =
      subst (λ l. EndsAt (g l) (k a w)) h ((hk a).ends w)
  proceed-EndsAt g channels (failed e, w) h hk = elim h [ ]

  pub bind-Sends :
      {A B : Type 0} (f g : List ℕ → List ℕ) {m : Step R (ServerSession S F × List Reply) A}
      {k : A → Step R (ServerSession S F × List Reply) B}
      → Sends f m
      → ((a : A) → Sends g (k a))
      → Sends (λ l. g (f l)) (m >>= k)
  bind-Sends f g {m} h hk = record {
    ends = λ w. proceed-EndsAt g (f (answers w.1)) (m w) (h.ends w) hk;
  }

  ends-answers :
      {A : Type 0} (channels : List ℕ) (r : Handled R A × (ServerSession S F × List Reply))
      → EndsAt channels r
      → answers r.1.1 ≡ channels
  ends-answers channels (done a, w) h = h
  ends-answers channels (failed e, w) h = elim h [ ]

  pub Sends-IsAnswering :
      {A : Type 0} {channel : ℕ} {m : Step R (ServerSession S F × List Reply) A}
      → Sends (λ l. channel ∷ l) m
      → IsAnswering channel m
  Sends-IsAnswering {m} h = record { adds = λ w. ends-answers _ (m w) (h.ends w) }

  pub reply-Sends : (r : Reply) → Sends (noted r) (reply recorder r)
  unfolding reply sent
  reply-Sends r = record { ends = λ w. refl }

  pub ret-Sends : {A : Type 0} (a : A) → Sends (λ l. l) (ret a)
  ret-Sends a = record { ends = λ w. refl }

  pub modify-Sends : (f : ServerSession S F → ServerSession S F) → Sends (λ l. l) (modify f)
  modify-Sends f = record { ends = λ w. refl }

  pub proceed-answers :
      {A B : Type 0} {k : A → Step R (ServerSession S F × List Reply) B}
      → ((a : A) → IsSilent (k a))
      → (r : Handled R A × (ServerSession S F × List Reply))
      → answers (proceed r k).1.1 ≡ answers r.1.1
  proceed-answers h (done a, w) = (h a).keeps w
  proceed-answers h (failed e, w) = refl

  -- What comes after the answer does not answer again.
  pub then-IsAnswering :
      {A B : Type 0} (channel : ℕ) {m : Step R (ServerSession S F × List Reply) A}
      {k : A → Step R (ServerSession S F × List Reply) B}
      → IsAnswering channel m
      → ((a : A) → IsSilent (k a))
      → IsAnswering channel (m >>= k)
  then-IsAnswering channel {m} h hk = record { adds = λ w. proceed-answers hk (m w) ∙ h.adds w }

  -- What a callback returned is answered.
  pub asks-IsAnswering :
      {A B : Type 0} (channel : ℕ) (c : ServerSession S F → Call S A)
      {k : Result A → Step R (ServerSession S F × List Reply) B}
      → ((r : Result A) → IsAnswering channel (k r))
      → IsAnswering channel (current >>= λ st. call (c st) >>= k)
  unfolding call
  asks-IsAnswering channel c h = record { adds = λ w. (h _).adds _ }

  pub Option-IsAnswering :
      {A B : Type 0} (channel : ℕ) (o : Option A) {n : Step R (ServerSession S F × List Reply) B}
      {f : A → Step R (ServerSession S F × List Reply) B}
      → IsAnswering channel n
      → ((a : A) → IsAnswering channel (f a))
      → IsAnswering channel (elim o [ none ↦ n | some a ↦ f a ])
  Option-IsAnswering channel none hn hf = hn
  Option-IsAnswering channel (some a) hn hf = hf a

  pub if-IsAnswering :
      {A : Type 0} {channel : ℕ} (b : Bool) {m n : Step R (ServerSession S F × List Reply) A}
      → IsAnswering channel m
      → IsAnswering channel n
      → IsAnswering channel (if b then m else n)
  if-IsAnswering true hm hn = hm
  if-IsAnswering false hm hn = hn

  pub current-IsAnswering :
      {A : Type 0} (channel : ℕ) {k : ServerSession S F → Step R (ServerSession S F × List Reply) A}
      → ((st : ServerSession S F) → IsAnswering channel (k st))
      → IsAnswering channel (current >>= k)
  current-IsAnswering channel h = record { adds = λ w. (h w.0).adds w }

  pub call-IsAnswering :
      {A B : Type 0} (channel : ℕ) (c : Call S A)
      {k : Result A → Step R (ServerSession S F × List Reply) B}
      → ((r : Result A) → IsAnswering channel (k r))
      → IsAnswering channel (call c >>= k)
  unfolding call
  call-IsAnswering channel c h = record { adds = λ w. (h _).adds _ }
