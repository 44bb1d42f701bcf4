-- ===== src/Sftp/Client/Accounting.antt =====
-- Runs of the client's tasks (crates/russh-extra/src/sftp/client.rs) as sequences of steps, and the
-- count of the results that each id is given.
use russh_extra.Base.{
  ℕ, ◌+◌, ◌≤◌, suc, ◌≡◌, refl, ◌++◌, Bytes, Text, List, [], ◌∷◌, map, true, false, Option, some,
  none, inl, inr, Bool-cases, ◌==◌, if◌then◌else◌, arith,
}
use russh_extra.Base.Assoc.{lookup, insert, remove, contains_key}
use russh_extra.Core.Error.{Error, SftpErrorKind}
use russh_extra.Sftp.Framing.{Split, complete, bad_length, out_of_fuel, split_packets}
use russh_extra.Sftp.Client.Responses.{Delivery, decode_response}
use russh_extra.Sftp.Client.Runtime.{
  ClientState, connected, next_request_id, begin_request, deliver, dispatch_response, dispatch_all,
  failed_with, fail_all, ChannelMsg, incoming, closed, other, ReadTask, after_split, read_task,
  write_task_ends,
}

-- How often an id stands in a list of pairs.
abbrev pub count_id : {A : Type 0} → ℕ → List (ℕ × A) → ℕ
count_id id [] = 0
count_id id ((j, a) ∷ m) = let rest = count_id id m in if j == id then suc rest else rest

count_id-append :
    {A : Type 0} (id : ℕ) (m n : List (ℕ × A))
    → count_id id (m ++ n) ≡ count_id id m + count_id id n
count_id-append id [] n = omega arith
count_id-append id ((j, a) ∷ m) n = ground (arith, count_id-append id m n)

count_id-remove :
    {A : Type 0} (id k : ℕ) (m : List (ℕ × A))
    → count_id id (remove k m) ≡ (if k == id then 0 else count_id id m)
unfolding remove
count_id-remove id k [] = ground arith
count_id-remove id k ((j, a) ∷ m) = ground (arith, count_id-remove id k m)

contains_key-count_id :
    {A : Type 0} (id : ℕ) (m : List (ℕ × A))
    → contains_key m id ≡ (if count_id id m == 0 then false else true)
unfolding lookup
contains_key-count_id id [] = refl
contains_key-count_id id ((j, a) ∷ m) = ground (arith, contains_key-count_id id m)

count_id-failed :
    (id : ℕ) (e : Error) (m : List (ℕ × Unit {0}))
    → count_id id (map (failed_with e) m) ≡ count_id id m
count_id-failed id e [] = refl
count_id-failed id e ((j, a) ∷ m) = ground (arith, count_id-failed id e m)

-- For each id: its results and its place among the waiting requests make up how often it was issued.
pub record IsAccounted (issued : ℕ → ℕ) (st : ClientState) : Type 0 where
  pub once : (id : ℕ) → count_id id st.pending ≤ 1
  pub total : (id : ℕ) → count_id id st.delivered + count_id id st.pending ≡ issued id

deliver-IsAccounted :
    {issued : ℕ → ℕ} {st : ClientState} (d : Delivery)
    → IsAccounted issued st
    → IsAccounted issued (deliver d st)
unfolding deliver
deliver-IsAccounted {st} (id, result) h = elim (Bool-cases (contains_key st.pending id)) [
  | inl there ↦ rw there (record {
    once = λ j. ground (arith, h.once j, count_id-remove j id st.pending);
    total = λ j. ground (
      arith,
      h.total j,
      h.once j,
      there,
      count_id-remove j id st.pending,
      contains_key-count_id id st.pending,
      count_id-append j st.delivered ((id, result) ∷ []),
    );
  })
  | inr missing ↦ rw missing h
]

fail_all-IsAccounted :
    {issued : ℕ → ℕ} {st : ClientState} (kind : SftpErrorKind) (reason : Text)
    → IsAccounted issued st
    → IsAccounted issued (fail_all kind reason st)
unfolding fail_all
fail_all-IsAccounted {st} kind reason h = record {
  once = λ j. omega arith;
  total = λ j. omega (
    arith,
    h.total j,
    count_id-append j st.delivered (map (failed_with _) st.pending),
    count_id-failed j _ st.pending,
  );
}

module _ {issued : ℕ → ℕ} where
  dispatch_response-IsAccounted :
      (packet : Bytes) {st : ClientState}
      → IsAccounted issued st
      → IsAccounted issued (dispatch_response packet st)
  unfolding dispatch_response
  dispatch_response-IsAccounted [] h = h
  dispatch_response-IsAccounted (t ∷ payload) h = deliver-IsAccounted (decode_response t payload) h

  dispatch_all-IsAccounted :
      (packets : List Bytes) {st : ClientState}
      → IsAccounted issued st
      → IsAccounted issued (dispatch_all packets st)
  unfolding dispatch_all
  dispatch_all-IsAccounted [] h = h
  dispatch_all-IsAccounted (p ∷ ps) h =
      dispatch_all-IsAccounted ps (dispatch_response-IsAccounted p h)

  after_split-IsAccounted :
      (s : Split) {st : ClientState}
      → IsAccounted issued st
      → IsAccounted issued (after_split s st).1
  unfolding after_split
  after_split-IsAccounted (complete ps rest) h = dispatch_all-IsAccounted ps h
  after_split-IsAccounted (bad_length ps len) h =
      fail_all-IsAccounted _ _ (dispatch_all-IsAccounted ps h)
  after_split-IsAccounted out_of_fuel h = h

  read_task-IsAccounted :
      (msg : ChannelMsg) (task : ReadTask) {st : ClientState}
      → IsAccounted issued st
      → IsAccounted issued (read_task msg (task, st)).1
  unfolding read_task
  read_task-IsAccounted msg none h = h
  read_task-IsAccounted (incoming bytes) (some buf) h =
      after_split-IsAccounted (split_packets (buf ++ bytes)) h
  read_task-IsAccounted closed (some buf) h = h
  read_task-IsAccounted other (some buf) h = h

-- The id that the next request takes, with the state in which it waits.
unfoldable pub issue : ClientState → ClientState
issue st = let (id, st') = next_request_id st in begin_request id st'

abbrev pub one_more : ℕ → (ℕ → ℕ) → ℕ → ℕ
one_more id issued j = if id == j then suc (issued j) else issued j

issue-IsAccounted :
    {issued : ℕ → ℕ} {st : ClientState}
    → contains_key st.pending st.next_id ≡ false
    → IsAccounted issued st
    → IsAccounted (one_more st.next_id issued) (issue st)
unfolding issue next_request_id begin_request insert
issue-IsAccounted {st} fresh h = record {
  once = λ j. ground (arith, h.once j, count_id-remove j st.next_id st.pending);
  total = λ j. ground (
    arith,
    h.total j,
    fresh,
    contains_key-count_id st.next_id st.pending,
    count_id-remove j st.next_id st.pending,
  );
}

-- The read task, the state that the tasks share, and how often each id was issued.
pub record System : Type 0 where
  pub task : ReadTask
  pub state : ClientState
  pub issued : ℕ → ℕ

abbrev pub start : System
start = record { task = some []; state = connected; issued = λ _. 0 }

-- A run: methods are called, messages come in, and the write task may end. An id comes round again
-- after 2^32 calls; a call is a step here only if its id is not waiting then.
pub data Step : System → System → Type 0 where
  call :
      (s : System)
      → contains_key s.state.pending s.state.next_id ≡ false
      → Step s (record s { state = issue s.state; issued = one_more s.state.next_id s.issued })
  receive :
      (s : System) (msg : ChannelMsg)
      → Step s (record s {
        task = (read_task msg (s.task, s.state)).0;
        state = (read_task msg (s.task, s.state)).1;
      })
  write_end :
      (s : System) (write_error : Option Text)
      → Step s (record s { state = write_task_ends write_error s.state })

pub data Reach : System → Type 0 where
  begin : Reach start
  next : {s t : System} → Reach s → Step s t → Reach t

Step-IsAccounted :
    {s t : System} → Step s t → IsAccounted s.issued s.state → IsAccounted t.issued t.state
unfolding write_task_ends
Step-IsAccounted (call s fresh) h = issue-IsAccounted fresh h
Step-IsAccounted (receive s msg) h = read_task-IsAccounted msg s.task h
Step-IsAccounted (write_end s write_error) h = fail_all-IsAccounted _ _ h

-- In every run of the client's steps from the state after `connect`, in which an id is issued
-- only while no request with that id waits, an id stands at most once among the waiting
-- requests, and the results delivered for it and its waiting request together are as many as the
-- times it was issued.
pub Reach-IsAccounted : {s : System} → Reach s → IsAccounted s.issued s.state
unfolding connected
Reach-IsAccounted begin = record { once = λ id. omega arith; total = λ id. refl }
Reach-IsAccounted (next r step) = Step-IsAccounted step (Reach-IsAccounted r)
