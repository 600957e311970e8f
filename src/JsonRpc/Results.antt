-- ===== src/JsonRpc/Results.antt =====
-- Every call gets at most one result, and only a call gets one.
use perfect_miner.Prelude.{
  ℕ, ◌+◌, ◌≤◌, ◌≡◌, refl, subst, Bool, true, false, Option, none, some, List, [], ◌∷◌, ◌++◌, arith,
  bit, ltb, leb, ◌==◌, ◌&&◌, Bool-cases, Option-cases, inl, inr,
}
use perfect_miner.Prelude.KeyMap.{lookup, has, lookup-insert, lookup-remove}
use perfect_miner.JsonRpc.{
  canonical, never_given, odd, Data, not_object, json_null, object, Reason, Output, sent_method,
  answered, notify, net_close, Client, new_client, put, close, send_method, on_result, on_recv,
  is_late, on_timer,
}

abbrev pub is_answer : ℕ → Output → Bool
is_answer id (sent_method i) = false
is_answer id (answered i) = id == i
is_answer id notify = false
is_answer id (net_close why) = false

-- How often the callback of this call was called.
abbrev pub answers : ℕ → List Output → ℕ
answers id [] = 0
answers id (o ∷ os) = bit (is_answer id o) + answers id os

answers-append :
    (id : ℕ) (xs ys : List Output) → answers id (xs ++ ys) ≡ answers id xs + answers id ys
answers-append id [] ys = omega arith
answers-append id (x ∷ xs) ys = omega (arith, answers-append id xs ys)

-- The calls of a client, and what comes to it; `now` is the time.
pub data Step : Client → Client → Type 0 where
  calls : (now : ℕ) (c : Client) → Step c (send_method now c)
  hears : (now : ℕ) (d : Data) (c c' : Client) → on_recv now d c ≡ some c' → Step c c'
  waits : (now : ℕ) (c : Client) → Step c (on_timer now c)

pub data Reach : Client → Type 0 where
  start : Reach new_client
  next : {c c' : Client} → Reach c → Step c c' → Reach c'

-- A call that was made waits for its result, or has had it.
abbrev was_made : ℕ → Client → Bool
was_made id c = leb 1 id && ltb id c.id_seq

pub record IsSettled (c : Client) : Type 0 where
  pub from_one : 1 ≤ c.id_seq
  pub settled :
      (id : ℕ) → answers id c.outputs + bit (has id c.expected_result) ≡ bit (was_made id c)

put_other :
    (o : Output) (c : Client)
    → ((id : ℕ) → is_answer id o ≡ false)
    → IsSettled c
    → IsSettled (put o c)
unfolding put
put_other o c h s = record {
  from_one = s.from_one;
  settled = λ id. ground (arith, answers-append id c.outputs (o ∷ []), h id, s.settled id);
}

close-IsSettled : (why : Reason) (c : Client) → IsSettled c → IsSettled (close why c)
unfolding close
close-IsSettled why c s =
    put_other (net_close why) (record c { timer = false }) (λ id. refl)
      (record { from_one = s.from_one; settled = s.settled })

send_method-IsSettled : (now : ℕ) (c : Client) → IsSettled c → IsSettled (send_method now c)
unfolding send_method put
send_method-IsSettled now c s = record {
  from_one = omega (arith, s.from_one);
  settled = λ id. ground (
    arith,
    answers-append id c.outputs (sent_method c.id_seq ∷ []),
    lookup-insert c.id_seq id now c.expected_result,
    s.settled id,
    s.from_one,
  );
}

on_result-IsSettled : (now id : ℕ) (c : Client) → IsSettled c → IsSettled (on_result now id c)
unfolding on_result put
on_result-IsSettled now id c s = elim (Option-cases (lookup id c.expected_result)) [
  | inl e ↦ rw (e, on_result) (close-IsSettled _ c s)
  | inr (time, e) ↦
      rw (e, on_result)
        (record {
          from_one = s.from_one;
          settled = λ i. ground (
            arith,
            answers-append i c.outputs (answered id ∷ []),
            lookup-remove id i c.expected_result,
            s.settled i,
            e,
          );
        })
]

on_timer-IsSettled : (now : ℕ) (c : Client) → IsSettled c → IsSettled (on_timer now c)
unfolding on_timer
on_timer-IsSettled now c s = elim (Bool-cases c.timer) [
  | inl on ↦ elim (Bool-cases (is_late now c.expected_result)) [
    | inl late ↦ simp (on, late) (close-IsSettled _ c s)
    | inr fine ↦ simp (on, fine) s
  ]
  | inr off ↦ simp off s
]

abbrev Holds : Option Client → Type 0
Holds none = Unit {0}
Holds (some c) = IsSettled c

on_recv-Holds : (now : ℕ) (d : Data) (c : Client) → IsSettled c → Holds (on_recv now d c)
unfolding on_recv
on_recv-Holds now not_object c s = close-IsSettled _ c s
on_recv-Holds now json_null c s = tt
on_recv-Holds now (object (canonical id) has_method) c s = on_result-IsSettled now id c s
on_recv-Holds now (object never_given has_method) c s = close-IsSettled _ c s
on_recv-Holds now (object odd true) c s = put_other notify c (λ id. refl) s
on_recv-Holds now (object odd false) c s = close-IsSettled _ c s

Step-IsSettled : {c c' : Client} → Step c c' → IsSettled c → IsSettled c'
Step-IsSettled (calls now c) s = send_method-IsSettled now c s
Step-IsSettled (hears now d c c' e) s = subst Holds e (on_recv-Holds now d c s)
Step-IsSettled (waits now c) s = on_timer-IsSettled now c s

-- After any history of calls, incoming values and timer ticks, each id that was given to a call has
-- either had its one result or still waits for it, and no other id has had a result or is waited for.
pub Reach-IsSettled : {c : Client} → Reach c → IsSettled c
unfolding new_client lookup
Reach-IsSettled start = record { from_one = omega arith; settled = λ id. ground arith }
Reach-IsSettled (next r s) = Step-IsSettled s (Reach-IsSettled r)
