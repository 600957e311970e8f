-- ===== src/Net/Client.antt =====
-- `Client` of Share/Net/NetClient.js: a socket, and the events that it turns into. What Node's socket
-- has said of itself is a part of the state: it opens, is ready, and has ended.
pub mod Stage
pub mod Trace
mod Tests
use perfect_miner.Prelude.{
  ℕ, Bool, true, false, not, ◌&&◌, Option, none, some, List, [], ◌∷◌, ◌++◌, is_some, if◌then◌else◌,
}
use perfect_miner.Prelude.Text.{Text}

pub data Socket : Type 0 where
  opening ready ended : Socket

-- The data of a message is `A`.
pub data Event (A : Type 0) : Type 0 where
  opened connected : Event A
  data_received : A → Event A
  disconnected closed : Option Text → Event A

pub record NetClient (A : Type 0) : Type 0 where
  pub address_is_valid : Bool
  pub created : Bool
  pub socket : Option Socket
  pub connected : Bool
  pub destroyed : Bool
  pub socket_destroyed : Bool
  pub last_error : Option Text
  pub events : List (Event A)

module _ {A : Type 0} where
  unfoldable pub emit : Event A → NetClient A → NetClient A
  emit e c = record c { events = c.events ++ e ∷ [] }

  -- Of an address, and of a socket that a server has got.
  unfoldable pub new_client : Bool → NetClient A
  new_client valid = record {
    address_is_valid = valid;
    created = false;
    socket = none;
    connected = false;
    destroyed = false;
    socket_destroyed = false;
    last_error = none;
    events = [];
  }

  unfoldable pub accepted_client : NetClient A
  accepted_client = record (new_client true) {
    created = true;
    socket = some ready;
    connected = true;
  }

  -- `create` and `connect`; what `net.connect` throws is given, if it does.
  unfoldable pub connect : Option Text → NetClient A → NetClient A
  connect (some e) c = emit (closed (some e)) (record c { last_error = some e })
  connect none c = record c { socket = some opening }

  unfoldable pub create : Option Text → NetClient A → NetClient A
  create thrown c =
      let c' = emit opened (record c { created = true }) in
      if not c'.address_is_valid
      then emit (closed none) c'
      else if c'.destroyed
      then emit (closed c'.last_error) c'
      else connect thrown c'

  -- What the socket says: `connect`, `error`, `timeout` and `close`, and a message of `Recv`.
  unfoldable pub on_connect : NetClient A → NetClient A
  on_connect c = emit Event.connected (record c { socket = some ready; connected = true })

  unfoldable pub on_error : Text → NetClient A → NetClient A
  on_error e c = record c { last_error = some e }

  unfoldable pub on_timeout : Text → NetClient A → NetClient A
  on_timeout e c = record c { last_error = some e; socket_destroyed = true }

  unfoldable pub drop_connection : NetClient A → NetClient A
  drop_connection c =
      if c.connected then emit (disconnected c.last_error) (record c { connected = false }) else c

  unfoldable pub on_close : NetClient A → NetClient A
  on_close c =
      let c' = emit (closed c.last_error) (drop_connection c) in
      record c' { socket = some ended; destroyed = true }

  unfoldable pub recv_data : A → NetClient A → NetClient A
  recv_data message c = emit (data_received message) c

  unfoldable pub close : Option Text → NetClient A → NetClient A
  close error c =
      if c.destroyed
      then c
      else record c { last_error = error; socket_destroyed = is_some c.socket; destroyed = true }
