-- ===== src/Control/Life.antt =====
-- When a miner is ready, and how it closes.
use perfect_miner.Prelude.{
  ℕ, ◌+◌, ◌≤◌, ◌≡◌, refl, Bool, true, false, ◌&&◌, ◌||◌, Option, none, some, List, [], ◌∷◌, ◌++◌,
  arith, length, length-append, bit, leb, ◌==◌, if◌then◌else◌, Bool-cases, Option-cases, inl, inr,
}
use perfect_miner.Prelude.Text.{Text}
use perfect_miner.Prelude.KeyMap.{lookup}
use perfect_miner.Bytes.{Bytes}
use perfect_miner.Control.{
  WorkerInfo, Control, Output, send_ping, send_hello_reply, send_job, connect, closing,
  workers_info, new_control, newest, send_newest, job_packet, sv_job, store_job, is_valid_job,
  set_checked_job, set_job, close, sv_ping, cl_hello, cl_pong, cl_worker_info, cl_info, cl_share,
  Struct, auto_unpack, dispatch, parse_cl_message,
}

abbrev pub is_closing : Output → Bool
is_closing closing = true
is_closing _ = false

abbrev pub is_workers_info : Output → Bool
is_workers_info (workers_info ws) = true
is_workers_info _ = false

abbrev pub tally : (Output → Bool) → List Output → ℕ
tally f [] = 0
tally f (o ∷ os) = bit (f o) + tally f os

tally-append :
    (f : Output → Bool) (xs ys : List Output) → tally f (xs ++ ys) ≡ tally f xs + tally f ys
tally-append f [] ys = omega arith
tally-append f (x ∷ xs) ys = omega (arith, tally-append f xs ys)

-- All workers of the program have reported.
abbrev pub all_reported : Control → Bool
all_reported c = leb 1 c.thread_count && leb c.thread_count (length c.workers)

pub record IsLive (c : Control) : Type 0 where
  pub ready : c.workers_ready ≡ all_reported c
  pub announced : tally is_workers_info c.outputs ≡ bit (all_reported c)
  pub ended : tally is_closing c.outputs ≡ bit c.closed

-- An output that is neither.
put_IsLive :
    (o : Output) (c : Control)
    → is_workers_info o ≡ false
    → is_closing o ≡ false
    → IsLive c
    → IsLive (record c { outputs = c.outputs ++ o ∷ [] })
put_IsLive o c hw hc l = record {
  ready = l.ready;
  announced = ground (arith, tally-append is_workers_info c.outputs (o ∷ []), hw, l.announced);
  ended = ground (arith, tally-append is_closing c.outputs (o ∷ []), hc, l.ended);
}

send_newest-IsLive :
    (j : Option _) (old : Bytes) (c : Control) → IsLive c → IsLive (send_newest j old c)
unfolding send_newest
send_newest-IsLive none old c l = l
send_newest-IsLive (some j) old c l = put_IsLive (send_job (job_packet j old)) c refl refl l

sv_job-IsLive : (old : Bytes) (c : Control) → IsLive c → IsLive (sv_job old c)
unfolding sv_job
sv_job-IsLive old c l = elim (Bool-cases c.workers_ready) [
  | inl ready ↦ simp ready (send_newest-IsLive (newest c.jobs) old c l)
  | inr waits ↦ simp waits l
]

close-IsLive : (c : Control) → IsLive c → IsLive (close c)
unfolding close
close-IsLive c l = record {
  ready = l.ready;
  announced = ground (arith, tally-append is_workers_info c.outputs (closing ∷ []), l.announced);
  ended = ground (arith, tally-append is_closing c.outputs (closing ∷ []), l.ended);
}

cl_worker_info-IsLive :
    (old : Bytes) (w : WorkerInfo) (c : Control) → IsLive c → IsLive (cl_worker_info old w c)
unfolding cl_worker_info
cl_worker_info-IsLive old w c l =
    elim (Bool-cases (length (c.workers ++ w ∷ []) == c.thread_count)) [
      | inl last ↦ rw last (
          sv_job-IsLive old _ (record {
            ready = ground (arith, length-append c.workers (w ∷ []), last);
            announced = ground (
              arith,
              length-append c.workers (w ∷ []),
              tally-append is_workers_info c.outputs (workers_info (c.workers ++ w ∷ []) ∷ []),
              last,
              l.announced,
            );
            ended = ground (
              arith,
              tally-append is_closing c.outputs (workers_info (c.workers ++ w ∷ []) ∷ []),
              l.ended,
            );
          }))
      | inr other ↦ rw other (record {
        ready = ground (arith, length-append c.workers (w ∷ []), other, l.ready);
        announced = ground (arith, length-append c.workers (w ∷ []), other, l.announced);
        ended = l.ended;
      })
    ]

if-IsLive : (b : Bool) {x y : Control} → IsLive x → IsLive y → IsLive (if b then x else y)
if-IsLive true p q = p
if-IsLive false p q = q

store_job-IsLive :
    (old : Bytes) (job_id target blob : Text) (c : Control)
    → IsLive c
    → IsLive (store_job old job_id target blob c)
unfolding store_job
store_job-IsLive old job_id target blob c l =
    let sent =
      sv_job-IsLive old (record c { jobs = _; job_seq = c.job_seq + 1 })
        (record { ready = l.ready; announced = l.announced; ended = l.ended }) in
    record { ready = sent.ready; announced = sent.announced; ended = sent.ended }

set_job-IsLive :
    (old : Bytes) (job_id target blob : Text) (c : Control)
    → IsLive c
    → IsLive (set_job old job_id target blob c)
unfolding set_job set_checked_job
set_job-IsLive old job_id target blob c l =
    if-IsLive ((length job_id == 0) || (length target == 0) || (length blob == 0)) l
      (if-IsLive (is_valid_job target blob) (store_job-IsLive old job_id target blob c l) l)

cl_pong-IsLive : (id : ℕ) (c : Control) → IsLive c → IsLive (cl_pong id c)
unfolding cl_pong
cl_pong-IsLive id c l = elim (Option-cases (lookup id c.pongs)) [
  | inl e ↦ rw e (close-IsLive c l)
  | inr (time, e) ↦ rw e l
]

cl_share-IsLive : (seq : ℕ) (buf : Bytes) (c : Control) → IsLive c → IsLive (cl_share seq buf c)
unfolding cl_share
cl_share-IsLive seq buf c l = elim (Option-cases (lookup seq c.jobs)) [
  | inl e ↦ rw (e, cl_share) l
  | inr (j, e) ↦ rw (e, cl_share) (put_IsLive _ c refl refl l)
]

cl_hello-IsLive : (c : Control) → IsLive c → IsLive (cl_hello c)
unfolding cl_hello
cl_hello-IsLive c l =
    let connected = put_IsLive connect c refl refl l in
    put_IsLive (send_hello_reply c.thread_count)
      (record c { ping_timer = true; outputs = c.outputs ++ connect ∷ [] }) refl refl
      (record { ready = connected.ready; announced = connected.announced; ended = connected.ended })

module _ (struct : Struct) where
  dispatch-IsLive :
      (old : Bytes) (cmd : ℕ) (buf : Bytes) (c : Control)
      → IsLive c
      → IsLive (dispatch struct old cmd buf c)
  unfolding dispatch cl_info
  dispatch-IsLive old cmd buf c l = if-IsLive (cmd == 85) (cl_hello-IsLive c l) (
      if-IsLive (cmd == 84) (cl_pong-IsLive _ c l) (
        if-IsLive (cmd == 87) (cl_worker_info-IsLive old _ c l) (
          if-IsLive (cmd == 82) (put_IsLive _ c refl refl l)
            (if-IsLive (cmd == 81) (cl_share-IsLive _ buf c l) (close-IsLive c l)))))

  parse_cl_message-IsLive :
      (old buf : Bytes) (c : Control) → IsLive c → IsLive (parse_cl_message struct old buf c)
  unfolding parse_cl_message
  parse_cl_message-IsLive old buf c l = elim (Option-cases (auto_unpack buf)) [
    | inl e ↦ rw (e, parse_cl_message) (close-IsLive c l)
    | inr (cmd, e) ↦ rw (e, parse_cl_message) (dispatch-IsLive old cmd buf c l)
  ]

  -- What happens to a control: jobs, datagrams, ticks of the ping timer, and `close`.
  pub data Reach (threads : ℕ) : Control → Type 0 where
    start : Reach threads (new_control threads)
    gets_job :
        (old : Bytes) (job_id target blob : Text) {c : Control}
        → Reach threads c
        → Reach threads (set_job old job_id target blob c)
    gets_message :
        (old buf : Bytes) {c : Control}
        → Reach threads c
        → Reach threads (parse_cl_message struct old buf c)
    pings : (now : ℕ) {c : Control} → Reach threads c → Reach threads (sv_ping now c)
    closes : {c : Control} → Reach threads c → Reach threads (close c)

  -- In every history of a control for at least one thread, the workers are ready exactly when as many
  -- as there are threads have reported; they are announced to the server once, at that moment; and
  -- the end is announced once, when the control closes for the first time.
  pub Reach-IsLive : (threads : ℕ) {c : Control} → 1 ≤ threads → Reach threads c → IsLive c
  unfolding new_control sv_ping
  Reach-IsLive threads h start = record {
    ready = ground (arith, h);
    announced = ground (arith, h);
    ended = refl;
  }
  Reach-IsLive threads h (gets_job old job_id target blob {c} r) =
      set_job-IsLive old job_id target blob c (Reach-IsLive threads h r)
  Reach-IsLive threads h (gets_message old buf {c} r) =
      parse_cl_message-IsLive old buf c (Reach-IsLive threads h r)
  Reach-IsLive threads h (pings now {c} r) =
      let pinged = put_IsLive (send_ping c.ping_id) c refl refl (Reach-IsLive threads h r) in
      record { ready = pinged.ready; announced = pinged.announced; ended = pinged.ended }
  Reach-IsLive threads h (closes {c} r) = close-IsLive c (Reach-IsLive threads h r)
