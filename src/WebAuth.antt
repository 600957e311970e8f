-- ===== src/WebAuth.antt =====
-- ControlServer/WebAuth.js: which browsers the program comes to know. `String(value)` and the id of the
-- process are parameters.
pub mod Login
mod Tests
use perfect_miner.Prelude.{ℕ, Bool, true, false, List, [], ◌∷◌, ◌++◌, ◌==◌, ◌||◌, if◌then◌else◌}
use perfect_miner.Prelude.Text.{Text, text_eq}
use perfect_miner.Json
use perfect_miner.Json.{Value, undefined, null, string}

-- What a socket is sent.
pub data Output : Type 0 where
  app_init : Text → Output
  answer_auth_key : Bool → Output
  noty_success noty_error : Output

pub record WebAuth : Type 0 where
  pub auth_key : Text
  pub process_id : Text
  pub sent : List (ℕ × Output)
  -- The sockets of `web:server:connect_web_socket`, which every table of the program keeps.
  pub sockets : List ℕ

pub data Event (F : Type 0) : Type 0 where
  connect_web_socket_no_login : ℕ → Event F
  web_login : ℕ → Value F → Event F

unfoldable pub is_empty : Text → Bool
is_empty [] = true
is_empty (c ∷ t) = false

-- `key === value`
unfoldable pub is_text : {F : Type 0} → Text → Value F → Bool
is_text key (string s) = text_eq key s
is_text key _ = false

module _ {F : Type 0} (to_string : Value F → Text) where
  unfoldable pub key_of : Value F → Text
  key_of undefined = []
  key_of null = []
  key_of value = to_string value

  unfoldable pub new_web_auth : Value F → Text → WebAuth
  new_web_auth auth_key process_id = record {
    auth_key = key_of auth_key;
    process_id = process_id;
    sent = [];
    sockets = [];
  }

unfoldable pub accepts : {F : Type 0} → Text → Value F → Bool
accepts key value = is_empty key || is_text key value

unfoldable pub on_login : {F : Type 0} → ℕ → Value F → WebAuth → WebAuth
on_login id value a =
    if accepts a.auth_key value
    then record a {
      sent = a.sent ++ (id, answer_auth_key true) ∷ (id, noty_success) ∷ [];
      sockets = a.sockets ++ id ∷ [];
    }
    else record a { sent = a.sent ++ (id, answer_auth_key false) ∷ (id, noty_error) ∷ [] }

unfoldable pub handle : {F : Type 0} → Event F → WebAuth → WebAuth
handle (connect_web_socket_no_login id) a = record a {
  sent = a.sent ++ (id, app_init a.process_id) ∷ [];
}
handle (web_login id value) a = on_login id value a
