-- ===== src/App/Settings.antt =====
-- `Settings` of ControlClient/Main.js: what a miner's program keeps in its file. An object is a function
-- from names to values. JSON, String(value), the random texts of ids, and what is read of the machine are
-- parameters; a write of the file succeeds.
pub mod Restart
mod Tests
use perfect_miner.Prelude.{
  ℕ, Bool, true, false, Option, none, some, List, [], ◌∷◌, length, ◌==◌, if◌then◌else◌,
}
use perfect_miner.Prelude.Text.{Text, codes, text_eq}

abbrev pub Object : Type 0 → Type 0
Object V = Text → Option V

-- What the program uses of the outside.
pub record Outside : Type 1 where
  pub V : Type 0
  pub File : Type 0
  pub parse : File → Option (Object V)
  pub stringify : Object V → File
  pub to_string : Option V → Text
  pub text : Text → V
  -- The options at first, and the three values that are read of the machine at every start.
  pub default_options : V
  pub os : V
  pub worker_x86_list : V
  pub worker_x64_list : V
  -- `options instanceof Object`, else {}.
  pub as_object : V → V

module _ (o : Outside) where
  open o use {
    V, File, parse, stringify, to_string, text, default_options, os, worker_x86_list,
    worker_x64_list, as_object,
  }

  unfoldable pub assign : Text → V → Object V → Object V
  assign k v d j = if text_eq j k then some v else d j

  -- `for(let i in data) { this.data[i] = data[i]; }`
  unfoldable pub copy_all : Object V → Object V → Object V
  copy_all loaded d j = elim (loaded j) [ none ↦ d j | some v ↦ some v ]

  unfoldable pub has_id : Object V → Bool
  has_id d = length (to_string (d (codes "id"))) == 64

  unfoldable pub init_data : Text → Object V → Object V
  init_data random d = if has_id d then d else assign (codes "id") (text random) d

  -- A file that is missing, or is no JSON, is passed over.
  unfoldable pub load_parsed : Text → Option (Object V) → Object V → Object V
  load_parsed random none d = d
  load_parsed random (some loaded) d = init_data random (copy_all loaded d)

  unfoldable pub load : Text → Option File → Object V → Object V
  load random none d = d
  load random (some file) d = load_parsed random (parse file) d

  pub record Settings : Type 0 where
    pub values : Object V
    pub file : Option File

  unfoldable pub save : Object V → Settings
  save d = record { values = d; file = some (stringify d) }

  unfoldable pub add_machine : Object V → Object V
  add_machine d =
      assign (codes "worker_x64_list") worker_x64_list
        (assign (codes "worker_x86_list") worker_x86_list (assign (codes "os") os d))

  unfoldable pub first_values : Text → Object V
  first_values random = init_data random (assign (codes "options") default_options (λ _. none))

  -- The constructor, over the file that is there; two ids may be made.
  unfoldable pub new_settings : Text → Text → Option File → Settings
  new_settings random more file = save (add_machine (load more file (first_values random)))

  unfoldable pub set_options : V → Settings → Settings
  set_options options s = save (assign (codes "options") (as_object options) s.values)
