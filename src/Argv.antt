-- ===== src/Argv.antt =====
-- The command lines of ControlServer/Main.js and ControlClient/Main.js: parseArgv, which both have, and
-- the one that the server starts the client with (simpleMode). An option without a value is none.
pub mod RoundTrip
mod Tests
use perfect_miner.Prelude.{
  ℕ, Bool, true, false, Option, none, some, List, [], ◌∷◌, ◌++◌, drop, ◌==◌, if◌then◌else◌, ◌||◌,
}
use perfect_miner.Prelude.Text.{Text, codes, text_eq}

-- An object, with its properties in the order of their coming.
abbrev pub Args : Type 0
Args = List (Text × Option Text)

unfoldable pub put : Text → Option Text → Args → Args
put k v [] = (k, v) ∷ []
put k v ((j, w) ∷ m) = let rest = put k v m in if text_eq k j then (j, v) ∷ m else (j, w) ∷ rest

-- `arg.length && arg[0] === "-"`
unfoldable pub is_option : Text → Bool
is_option [] = false
is_option (c ∷ t) = c == 45

-- The loop of parseArgv.
unfoldable pub parse_from : Args → List Text → Args
parse_from m [] = m
parse_from m (arg ∷ []) = if is_option arg then put (drop 1 arg) none m else m
parse_from m (arg ∷ value ∷ more) =
    let taken = parse_from (put (drop 1 arg) (some value) m) more in
    let passed = parse_from m (value ∷ more) in if is_option arg then taken else passed

unfoldable pub parse_argv : List Text → Args
parse_argv argv = parse_from [] argv

unfoldable pub options_of : List (Text × Text) → List Text
options_of [] = []
options_of ((i, value) ∷ argv) = (45 ∷ i) ∷ value ∷ options_of argv

-- `fArgv` of simpleMode, where every option has a value.
unfoldable pub client_args : Text → List (Text × Text) → Text → List Text
client_args path_app_client argv hostport =
    path_app_client ∷ (options_of argv ++ codes "-address" ∷ hostport ∷ [])
