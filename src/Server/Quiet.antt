-- ===== src/Server/Quiet.antt =====
-- Methods that neither log a user in nor let a channel in (crates/russh-extra/src/server.rs), and how
-- they are put together.
use russh_extra.Base.{
  ◌≤◌, ◌≡◌, refl, ◌∙◌, Bool, true, false, Option, none, some, arith, if◌then◌else◌,
}
use russh_extra.Core.Error.{Error, Result, ok, err}
use russh_extra.Sftp.Handler.{Call}
use russh_extra.Server.Runtime.{
  ServerSession, RusshSession, Reply, Handled, done, failed, Step, proceed, ◌>>=◌, ret, fail,
  current, modify, call, or_fail, sent, reply, attempt,
}

module _ {S F : Type 0} where
  pub record Quiet (st st' : ServerSession S F) : Type 0 where
    pub username : st'.username ≡ st.username
    pub open_sessions : st'.open_sessions ≤ st.open_sessions

  Quiet-refl : (st : ServerSession S F) → Quiet st st
  Quiet-refl st = record { username = refl; open_sessions = omega arith }

  Quiet-trans : {a b c : ServerSession S F} → Quiet a b → Quiet b c → Quiet a c
  Quiet-trans p q = record {
    username = q.username ∙ p.username;
    open_sessions = omega (arith, p.open_sessions, q.open_sessions);
  }

module _ {R S F T : Type 0} where
  pub record IsQuiet {A : Type 0} (m : Step R (ServerSession S F × T) A) : Type 0 where
    pub keeps : (w : ServerSession S F × T) → Quiet w.0 (m w).1.0

  proceed-Quiet :
      {A B : Type 0} (st : ServerSession S F) (k : A → Step R (ServerSession S F × T) B)
      → ((a : A) → IsQuiet (k a))
      → (r : Handled R A × (ServerSession S F × T)) → Quiet st r.1.0
      → Quiet st (proceed r k).1.0
  proceed-Quiet st k h (done a, w) q = Quiet-trans q ((h a).keeps w)
  proceed-Quiet st k h (failed e, w) q = q

  pub bind-IsQuiet :
      {A B : Type 0} {m : Step R (ServerSession S F × T) A}
      {k : A → Step R (ServerSession S F × T) B}
      → IsQuiet m
      → ((a : A) → IsQuiet (k a))
      → IsQuiet (m >>= k)
  bind-IsQuiet {m} {k} hm hk = record { keeps = λ w. proceed-Quiet w.0 k hk (m w) (hm.keeps w) }

  pub ret-IsQuiet : {A : Type 0} (a : A) → IsQuiet (ret a)
  ret-IsQuiet a = record { keeps = λ w. Quiet-refl w.0 }

  pub fail-IsQuiet : {A : Type 0} (e : Error) → IsQuiet (fail {A = A} e)
  fail-IsQuiet e = record { keeps = λ w. Quiet-refl w.0 }

  pub current-IsQuiet : IsQuiet (current)
  current-IsQuiet = record { keeps = λ w. Quiet-refl w.0 }

  pub modify-IsQuiet :
      {f : ServerSession S F → ServerSession S F}
      → ((st : ServerSession S F) → Quiet st (f st))
      → IsQuiet (modify f)
  modify-IsQuiet h = record { keeps = λ w. h w.0 }

  pub call-IsQuiet : {A : Type 0} (c : Call S A) → IsQuiet (call c)
  unfolding call
  call-IsQuiet c = record { keeps = λ w. record { username = refl; open_sessions = omega arith } }

  pub or_fail-IsQuiet : {A : Type 0} (r : Result A) → IsQuiet (or_fail r)
  unfolding or_fail
  or_fail-IsQuiet (ok a) = ret-IsQuiet a
  or_fail-IsQuiet (err e) = fail-IsQuiet e

  sent-IsQuiet : (e : Option R) → IsQuiet (sent e)
  unfolding sent
  sent-IsQuiet none = record { keeps = λ w. Quiet-refl w.0 }
  sent-IsQuiet (some e) = record { keeps = λ w. Quiet-refl w.0 }

  pub reply-IsQuiet : (session : RusshSession R T) (r : Reply) → IsQuiet (reply session r)
  unfolding reply
  reply-IsQuiet session r = record {
    keeps = λ (st, t). (sent-IsQuiet (session r t).0).keeps (st, (session r t).1);
  }

  pub attempt-IsQuiet : (session : RusshSession R T) (r : Reply) → IsQuiet (attempt session r)
  unfolding attempt
  attempt-IsQuiet session r = record { keeps = λ w. Quiet-refl w.0 }

  pub Option-IsQuiet :
      {A B : Type 0} (o : Option A) {n : Step R (ServerSession S F × T) B}
      {f : A → Step R (ServerSession S F × T) B}
      → IsQuiet n
      → ((a : A) → IsQuiet (f a))
      → IsQuiet (elim o [ none ↦ n | some a ↦ f a ])
  Option-IsQuiet none hn hf = hn
  Option-IsQuiet (some a) hn hf = hf a

  pub if-IsQuiet :
      {B : Type 0} (b : Bool) {m n : Step R (ServerSession S F × T) B}
      → IsQuiet m
      → IsQuiet n
      → IsQuiet (if b then m else n)
  if-IsQuiet true hm hn = hm
  if-IsQuiet false hm hn = hn
