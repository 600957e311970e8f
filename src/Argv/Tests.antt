-- ===== src/Argv/Tests.antt =====
-- A simple start: the server's options reach the client.
use perfect_miner.Prelude.{◌≡◌, refl, some, List, [], ◌∷◌}
use perfect_miner.Prelude.Text.{Text, codes, text_eq}
use perfect_miner.Argv.{parse_argv, client_args, put, is_option, parse_from}
use perfect_miner.Argv.RoundTrip.{parse_argv-client_args}

abbrev server_line : List Text
server_line =
    codes "node.exe"
    ∷ codes "Main.js"
    ∷ codes "-mode"
    ∷ codes "simple"
    ∷ codes "-dir_x86"
    ∷ codes "-w"
    ∷ []

abbrev options : List (Text × Text)
options = (codes "mode", codes "simple") ∷ (codes "dir_x86", codes "-w") ∷ []

parse_argv-client_args_example :
    parse_argv (codes "node.exe" ∷ client_args (codes "app") options (codes "ssl://127.0.0.1:9"))
    ≡ put (codes "address") (some (codes "ssl://127.0.0.1:9")) (parse_argv server_line)
unfolding parse_argv parse_from put is_option text_eq
parse_argv-client_args_example =
    parse_argv-client_args (codes "node.exe") (codes "app") (codes "ssl://127.0.0.1:9") server_line
      options refl refl refl
