-- ===== src/WebAuth/Tests.antt =====
-- A browser that tells a wrong key and then the right one.
use perfect_miner.Prelude.{ℕ, ◌<◌, ◌↔◌, List, [], ◌∷◌, count}
use perfect_miner.Prelude.Text.{Text, codes}
use perfect_miner.Json.{Value, string, null}
use perfect_miner.WebAuth.{Event, connect_web_socket_no_login, web_login, new_web_auth, key_of}
use perfect_miner.WebAuth.Login.{handle_all, Told, handle_all-Told}

abbrev as_text : Value ℕ → Text
as_text (string s) = s
as_text _ = []

abbrev events : List (Event ℕ)
events = connect_web_socket_no_login 5 ∷ web_login 5 null ∷ web_login 5 (string (codes "key")) ∷ []

handle_all-Told_example :
    (0 < count 5 (handle_all events (new_web_auth as_text (string (codes "key")) [])).sockets)
    ↔ Told 5 (key_of as_text (string (codes "key"))) events
handle_all-Told_example = handle_all-Told as_text (string (codes "key")) [] 5 events
