-- ===== src/Net/Client/Trace.antt =====
-- The order of the events of a client of Share/Net/NetClient.js.
use perfect_miner.Prelude.{
  ◌≡◌, refl, ap, ◌∙◌, Bool, true, false, not, Option, none, some, List, [], ◌∷◌, ◌++◌, ◌⊎◌,
  if◌then◌else◌, Bool-cases, inl, inr,
}
use perfect_miner.Prelude.Text.{Text}
use perfect_miner.Net.Client.{
  opening, ready, Event, opened, data_received, disconnected, closed, NetClient, new_client,
  accepted_client, emit, connect, create, on_connect, on_error, on_timeout, drop_connection,
  on_close, recv_data, close,
}
use perfect_miner.Net.Client.Stage.{
  Stage, fresh, begun, live, down, over, At, unmade, unopened, dialling, linked, gone, fresh_place,
  begun_place, live_place, placed,
}

-- How a client begins: with an address, valid or not, or with a socket that a server has got.
pub data Origin : Type 0 where
  addressed : Bool → Origin
  accepted : Origin

abbrev pub first_stage : Origin → Stage
first_stage (addressed valid) = fresh
first_stage accepted = live

module _ {A : Type 0} where
  abbrev pub advance : Stage → Event A → Option Stage
  advance fresh opened = some begun
  advance begun Event.connected = some live
  advance begun (closed e) = some over
  advance live (data_received a) = some live
  advance live (disconnected e) = some down
  advance down (closed e) = some over
  advance _ _ = none

  abbrev pub follow : Option Stage → Event A → Option Stage
  follow none e = none
  follow (some s) e = advance s e

  abbrev pub stage_after : Option Stage → List (Event A) → Option Stage
  stage_after s [] = s
  stage_after s (e ∷ es) = stage_after (follow s e) es

  -- What Node's sockets do: a socket is made once; it becomes ready once, brings data while it is
  -- ready and its client is connected, and ends once.
  pub data Reach (start : NetClient A) : NetClient A → Type 0 where
    begin : Reach start start
    made :
        (thrown : Option Text) {c : NetClient A}
        → Reach start c
        → c.created ≡ false
        → Reach start (create thrown c)
    joined :
        {c : NetClient A} → Reach start c → c.socket ≡ some opening → Reach start (on_connect c)
    failed : (e : Text) {c : NetClient A} → Reach start c → Reach start (on_error e c)
    timed_out : (e : Text) {c : NetClient A} → Reach start c → Reach start (on_timeout e c)
    told :
        (a : A) {c : NetClient A}
        → Reach start c
        → c.socket ≡ some ready
        → Reach start (recv_data a c)
    finished :
        {c : NetClient A}
        → Reach start c
        → (c.socket ≡ some opening) ⊎ (c.socket ≡ some ready)
        → Reach start (on_close c)
    stopped : (e : Option Text) {c : NetClient A} → Reach start c → Reach start (close e c)

  stage_after-append :
      (s : Option Stage) (es : List (Event A)) (e : Event A)
      → stage_after s (es ++ e ∷ []) ≡ follow (stage_after s es) e
  stage_after-append s [] e = refl
  stage_after-append s (x ∷ es) e = stage_after-append (follow s x) es e

  pub record IsOrdered (s0 : Stage) (c : NetClient A) : Type 0 where
    pub stage : Stage
    pub place : At c.created c.socket c.connected stage
    pub follows : stage_after (some s0) c.events ≡ some stage

  emitted :
      (s0 s t : Stage) (c : NetClient A) (e : Event A)
      → stage_after (some s0) c.events ≡ some s
      → advance s e ≡ some t
      → stage_after (some s0) (c.events ++ e ∷ []) ≡ some t
  emitted s0 s t c e h step =
      stage_after-append (some s0) c.events e ∙ ap (λ o. follow o e) h ∙ step

  connect-IsOrdered :
      (s0 : Stage) (thrown : Option Text) (c : NetClient A)
      → c.created ≡ true
      → c.socket ≡ none
      → c.connected ≡ false
      → stage_after (some s0) c.events ≡ some begun
      → IsOrdered s0 (connect thrown c)
  unfolding connect emit
  connect-IsOrdered s0 none c cr so co h = record {
    stage = begun;
    place = placed cr refl co dialling;
    follows = h;
  }
  connect-IsOrdered s0 (some e) c cr so co h = record {
    stage = over;
    place = placed cr so co unopened;
    follows = emitted s0 begun over c (closed (some e)) h refl;
  }

  create-IsOrdered :
      (s0 : Stage) (thrown : Option Text) (c : NetClient A)
      → c.created ≡ false
      → IsOrdered s0 c
      → IsOrdered s0 (create thrown c)
  unfolding create emit
  create-IsOrdered s0 thrown c n o =
      chosen (not c.address_is_valid) c.destroyed (fresh_place o.place n)
    where
      c' : NetClient A
      c' = emit opened (record c { created = true })

      chosen :
          (b d : Bool)
          → (c.socket ≡ none) × (c.connected ≡ false) × (o.stage ≡ fresh)
          → IsOrdered s0 (
              if b
              then emit (closed none) c'
              else if d
              then emit (closed c.last_error) c'
              else connect thrown c')
      chosen b d (so, co, st) =
          let h : stage_after (some s0) c'.events ≡ some begun =
            emitted s0 fresh begun c opened (o.follows ∙ ap some st) refl in
          by_case b d h so co
        where
          by_case :
              (b d : Bool)
              → stage_after (some s0) c'.events ≡ some begun
              → c.socket ≡ none
              → c.connected ≡ false
              → IsOrdered s0 (
                  if b
                  then emit (closed none) c'
                  else if d
                  then emit (closed c.last_error) c'
                  else connect thrown c')
          by_case true d h so co = record {
            stage = over;
            place = placed refl so co unopened;
            follows = emitted s0 begun over c' (closed none) h refl;
          }
          by_case false true h so co = record {
            stage = over;
            place = placed refl so co unopened;
            follows = emitted s0 begun over c' (closed c.last_error) h refl;
          }
          by_case false false h so co = connect-IsOrdered s0 thrown c' refl so co h

  closing-IsOrdered :
      (s0 : Stage) (b : Bool) (c : NetClient A)
      → c.created ≡ true
      → c.connected ≡ b
      → stage_after (some s0) c.events ≡ some (if b then live else begun)
      → IsOrdered s0 (on_close c)
  unfolding on_close drop_connection emit
  closing-IsOrdered s0 false c cr co h = record {
    stage = over;
    place = simp co (placed cr refl refl gone);
    follows = simp co (emitted s0 begun over c (closed c.last_error) h refl);
  }
  closing-IsOrdered s0 true c cr co h = record {
    stage = over;
    place = simp co (placed cr refl refl gone);
    follows = simp co (
        emitted s0 down over (emit (disconnected c.last_error) (record c { connected = false }))
          (closed c.last_error) (emitted s0 live down c (disconnected c.last_error) h refl) refl);
  }

  -- From a start in its place on, the events follow the order.
  follows-IsOrdered :
      (s0 : Stage) {start c : NetClient A} → IsOrdered s0 start → Reach start c → IsOrdered s0 c
  unfolding on_connect on_error on_timeout recv_data close emit
  follows-IsOrdered s0 i begin = i
  follows-IsOrdered s0 i (made thrown {c} r n) =
      create-IsOrdered s0 thrown c n (follows-IsOrdered s0 i r)
  follows-IsOrdered s0 i (joined {c} r so) =
      let o : IsOrdered s0 c = follows-IsOrdered s0 i r in
      let (cr, co, st) = begun_place o.place so in
      record {
        stage = live;
        place = placed cr refl refl linked;
        follows = emitted s0 begun live c Event.connected (o.follows ∙ ap some st) refl;
      }
  follows-IsOrdered s0 i (failed e {c} r) =
      let o : IsOrdered s0 c = follows-IsOrdered s0 i r in
      record { stage = o.stage; place = o.place; follows = o.follows }
  follows-IsOrdered s0 i (timed_out e {c} r) =
      let o : IsOrdered s0 c = follows-IsOrdered s0 i r in
      record { stage = o.stage; place = o.place; follows = o.follows }
  follows-IsOrdered s0 i (told a {c} r so) =
      let o : IsOrdered s0 c = follows-IsOrdered s0 i r in
      let (cr, co, st) = live_place o.place so in
      record {
        stage = live;
        place = placed cr so co linked;
        follows = emitted s0 live live c (data_received a) (o.follows ∙ ap some st) refl;
      }
  follows-IsOrdered s0 i (finished {c} r (inl so)) =
      let o : IsOrdered s0 c = follows-IsOrdered s0 i r in
      let (cr, co, st) = begun_place o.place so in
      closing-IsOrdered s0 false c cr co (o.follows ∙ ap some st)
  follows-IsOrdered s0 i (finished {c} r (inr so)) =
      let o : IsOrdered s0 c = follows-IsOrdered s0 i r in
      let (cr, co, st) = live_place o.place so in
      closing-IsOrdered s0 true c cr co (o.follows ∙ ap some st)
  follows-IsOrdered s0 i (stopped e {c} r) =
      let o : IsOrdered s0 c = follows-IsOrdered s0 i r in
      elim (Bool-cases c.destroyed) [
        | inl d ↦ simp d o
        | inr d ↦ simp d (record { stage = o.stage; place = o.place; follows = o.follows })
      ]

  abbrev pub first_client : Origin → NetClient A
  first_client (addressed valid) = new_client valid
  first_client accepted = accepted_client

  first-IsOrdered : (o : Origin) → IsOrdered (first_stage o) (first_client o)
  unfolding new_client accepted_client
  first-IsOrdered (addressed valid) = record { stage = fresh; place = unmade; follows = refl }
  first-IsOrdered accepted = record { stage = live; place = linked; follows = refl }

  -- In every history of a client, of an address or of a socket that a server has got, whose socket is
  -- made, becomes ready, brings data while it is ready, and ends, each at most once and in this order:
  -- the events of a client of an address follow the order open, connect, data, disconnect and close,
  -- or open and close alone; those of a client that a server has got the order data, disconnect and
  -- close; and nothing is behind.
  pub Reach-IsOrdered :
      (o : Origin) {c : NetClient A} → Reach (first_client o) c → IsOrdered (first_stage o) c
  Reach-IsOrdered o r = follows-IsOrdered (first_stage o) (first-IsOrdered o) r
