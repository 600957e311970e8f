-- ===== src/Net/Emitter.antt =====
-- `NetClientEventEmitter` of Share/Net/NetClientEventEmitter.js: events by name between two programs,
-- each a message `[name, [arguments]]`. `EventEmitter.emit` throws on an event `error` that nobody
-- listens to, and nobody does.
use perfect_miner.Prelude.{
  ℕ, Bool, true, false, not, ◌&&◌, ◌||◌, Option, none, some, List, [], ◌∷◌, leb, ◌==◌,
  if◌then◌else◌,
}
use perfect_miner.Prelude.Text.{Text, codes, text_eq}
use perfect_miner.Prelude.Floats.{Floats}
use perfect_miner.Json.Wire.{reread}
use perfect_miner.Json.{Value, string, array, Values, nil, cons}

unfoldable pub is_name_char : ℕ → Bool
is_name_char c =
    (leb 97 c && leb c 122)
    || (leb 65 c && leb c 90)
    || (leb 48 c && leb c 57)
    || (c == 95)
    || (c == 45)
    || (c == 58)

unfoldable pub all_name_chars : Text → Bool
all_name_chars [] = true
all_name_chars (c ∷ t) = is_name_char c && all_name_chars t

-- `map_events`, and what a JavaScript object inherits.
unfoldable pub reserved : List Text
reserved =
    codes "open"
    ∷ codes "close"
    ∷ codes "connect"
    ∷ codes "disconnect"
    ∷ codes "constructor"
    ∷ codes "toString"
    ∷ codes "toLocaleString"
    ∷ codes "valueOf"
    ∷ codes "hasOwnProperty"
    ∷ codes "isPrototypeOf"
    ∷ codes "propertyIsEnumerable"
    ∷ codes "__proto__"
    ∷ codes "__defineGetter__"
    ∷ codes "__defineSetter__"
    ∷ codes "__lookupGetter__"
    ∷ codes "__lookupSetter__"
    ∷ []

unfoldable pub is_one_of : Text → List Text → Bool
is_one_of t [] = false
is_one_of t (s ∷ ss) = text_eq t s || is_one_of t ss

unfoldable pub is_empty : Text → Bool
is_empty [] = true
is_empty (c ∷ t) = false

unfoldable pub check_name : Text → Bool
check_name name = not (is_empty name) && all_name_chars name && not (is_one_of name reserved)

pub data Received (F : Type 0) : Type 0 where
  told : Text → Values F → Received F
  refused uncaught : Received F

module _ (fl : Floats) where
  open fl use {F}

  unfoldable pub emit_local : Text → Values F → Received F
  emit_local name args = if text_eq name (codes "error") then uncaught else told name args

  -- The event `data` of the client; a message that is refused closes the connection.
  unfoldable pub on_data : Value F → Received F
  on_data (array (cons (string name) (cons (array args) nil))) =
      if check_name name then emit_local name args else refused
  on_data _ = refused

  -- `emit`: what is sent, if anything, as the other program reads it from the JSON text.
  unfoldable pub emit : Bool → Text → Values F → Option (Value F)
  emit connected name args =
      if connected && check_name name
      then some (reread fl (array (cons (string name) (cons (array args) nil))))
      else none
