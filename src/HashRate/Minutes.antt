-- ===== src/HashRate/Minutes.antt =====
-- `TimeEvents` and `HashRate` of ControlServer/HashRate.js: a mark of the sum of the hashes every five
-- minutes, and the marks between which the rates over minutes and hours are taken.
pub mod Marks
pub mod Results
mod Tests
use perfect_miner.Prelude.{
  ℕ, zero, suc, ◌+◌, ◌-◌, ◌*◌, ◌/◌, ◌%◌, Bool, true, false, Option, none, some, List, [], ◌∷◌, ◌++◌,
  replicate, set, get_or, ltb, leb, ◌==◌, if◌then◌else◌,
}
use perfect_miner.HashRate.{Entry}

pub data Callback : Type 0 where
  min1_event min5_event : Callback

pub record TimeEvent : Type 0 where
  pub interval : ℕ
  pub last_time : ℕ
  pub cb : Callback

unfoldable pub on : ℕ → Callback → ℕ → List TimeEvent → List TimeEvent
on sec cb time events = events ++ (record { interval = sec; last_time = time; cb = cb }) ∷ []

unfoldable pub is_due : ℕ → TimeEvent → Bool
is_due time v = leb (v.last_time + v.interval) time

-- `emit`, with the callbacks that it calls, in order; they do not look at the events.
unfoldable pub emit : ℕ → List TimeEvent → List TimeEvent × List Callback
emit time [] = ([], [])
emit time (v ∷ events) =
    let rest = emit time events in
    if is_due time v
    then ((record v { last_time = time }) ∷ rest.0, v.cb ∷ rest.1)
    else (v ∷ rest.0, rest.1)

pub record HashRate : Type 0 where
  pub time : ℕ
  pub start_time : ℕ
  pub prev_min_info : Entry
  pub min_info : Entry
  pub min5_count : ℕ
  pub min5_cursor : ℕ
  pub min5_info_data : List Entry
  pub time_events : List TimeEvent
  pub hashes : ℕ

unfoldable pub min1 : HashRate → HashRate
min1 h =
    let late = ltb (h.min_info.1 + 60) h.time in
    record h {
      prev_min_info = if late then h.min_info else h.prev_min_info;
      min_info = if late then (h.hashes, h.time) else h.min_info;
    }

unfoldable pub min5_add : Entry → HashRate → HashRate
min5_add e h = record h {
  min5_info_data = set h.min5_info_data (h.min5_cursor % h.min5_count) e;
  min5_cursor = h.min5_cursor + 1;
}

unfoldable pub min5 : HashRate → HashRate
min5 h = min5_add (h.hashes, h.time) h

unfoldable pub call : Callback → HashRate → HashRate
call min1_event h = min1 h
call min5_event h = min5 h

unfoldable pub call_all : List Callback → HashRate → HashRate
call_all [] h = h
call_all (c ∷ cs) h = call_all cs (call c h)

unfoldable pub new_hash_rate : ℕ → HashRate
unfolding on
new_hash_rate now =
    min5_add (0, now)
      (record {
        time = now;
        start_time = now;
        prev_min_info = (0, now);
        min_info = (0, now);
        min5_count = 60 / 5 * 24;
        min5_cursor = 0;
        min5_info_data = replicate (60 / 5 * 24) (0, 0);
        time_events = on (60 * 5) min5_event now (on 60 min1_event now []);
        hashes = 0;
      })

unfoldable pub add_result : Entry → HashRate → HashRate
add_result (hashes, now) h =
    let due = emit now h.time_events in
    call_all due.1 (record h { hashes = hashes; time = now; time_events = due.0 })

-- `this.time - m5Time >= (min[0]*60)`; without a `min[0]` it is false.
unfoldable pub is_old : ℕ → List ℕ → Entry → Bool
is_old time [] e = false
is_old time (m ∷ mins) e = leb (m * 60 + e.1) time

unfoldable pub tail : List ℕ → List ℕ
tail [] = []
tail (m ∷ mins) = mins

-- A rate that is found: the number of minutes, and the mark from which it is taken.
unfoldable pub found : Bool → List ℕ → Entry → List (ℕ × Entry) → List (ℕ × Entry)
found false mins e rest = rest
found true [] e rest = rest
found true (m ∷ []) e rest = (m, e) ∷ []
found true (m ∷ n ∷ mins) e rest = (m, e) ∷ rest

abbrev pub seen : Option ℕ → ℕ → Bool
seen none index = false
seen (some max_index) index = max_index == index

abbrev pub first_of : Option ℕ → ℕ → ℕ
first_of none index = index
first_of (some max_index) index = max_index

-- The loop of `getHashRate`, for `i` from the last mark down.
unfoldable pub search_marks : ℕ → Option ℕ → List ℕ → HashRate → List (ℕ × Entry)
search_marks zero max_index mins h = []
search_marks (suc i) max_index mins h =
    let index = i % h.min5_count in
    let e = get_or h.min5_info_data index (0, 0) in
    let old = is_old h.time mins e in
    let rest =
      search_marks i (some (first_of max_index index)) (if old then tail mins else mins) h in
    if seen max_index index then [] else found old mins e rest

-- `getHashRate`, without the rate over all time and the divisions.
unfoldable pub get_hash_rate : List ℕ → HashRate → List (ℕ × Entry)
get_hash_rate mins h = search_marks h.min5_cursor none mins h
