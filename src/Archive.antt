-- ===== src/Archive.antt =====
-- ControlServer/PackArray.js and web/public/app/UnPackArray.js: the archive that the server keeps
-- for the browser. `JSON.stringify` and `JSON.parse` are parameters.
pub mod Find
pub mod RoundTrip
pub mod Truncate
mod Tests
use mathlib.Core.Option
use perfect_miner.Prelude.{
  ℕ, zero, suc, ◌/◌, Option, none, some, List, [], ◌∷◌, ◌++◌, length, drop, map, ltb, ◌==◌, ◌&&◌,
  if◌then◌else◌,
}
use perfect_miner.Prelude.Text.{Text, text_eq}

-- Markers: 0 0 starts a record, 0 1 ends its name, 0 2 ends its JSON.
unfoldable pub pack : Text → Text → Text
pack name json = 0 ∷ 0 ∷ (name ++ (0 ∷ 1 ∷ (json ++ (0 ∷ 2 ∷ []))))

pub record PackArray : Type 0 where
  pub max_size : ℕ
  pub contents : Text

module _ {O : Type 0} (stringify : O → Text) where
  unfoldable pub write : Text → O → PackArray → PackArray
  write name obj a =
      let longer = a.contents ++ pack name (stringify obj) in
      record a {
        contents = if ltb a.max_size (length longer) then drop (a.max_size / 2) longer else longer;
      }

-- `indexOf` of the marker 0 m: what stands before it, and what stands behind it.
unfoldable pub cut : ℕ → Text → Option (Text × Text)
cut m [] = none
cut m (x ∷ []) = none
cut m (x ∷ y ∷ t) =
    let rest = Option.map (λ r. (x ∷ r.0, r.1)) (cut m (y ∷ t)) in
    if (x == 0) && (y == m) then some ([], t) else rest

-- One round of the loop: the name and the JSON of the next record, and the text from its end marker
-- on, where the search goes on (`endIndex` is not moved behind the marker).
unfoldable pub next_record : Text → Option (Text × Text × Text)
next_record str = elim (cut 0 str) [
  | none ↦ none
  | some (skipped, s1) ↦ elim (cut 1 s1) [
    | none ↦ none
    | some (name, s2) ↦ elim (cut 2 s2) [
      | none ↦ none
      | some (json, s3) ↦ some (name, json, 0 ∷ 2 ∷ s3)
    ]
  ]
]

module _ {O : Type 0} (parse : Text → Option O) where
  unfoldable pub keep : Text → Option O → List (Text × O) → List (Text × O)
  keep name none out = out
  keep name (some obj) out = (name, obj) ∷ out

  -- The records in order, each with its name; what is no JSON is skipped.
  unfoldable pub unpack_from : ℕ → Text → List (Text × O)
  unpack_from zero str = []
  unpack_from (suc fuel) str = elim (next_record str) [
    | none ↦ []
    | some (name, json, rest) ↦ keep name (parse json) (unpack_from fuel rest)
  ]

  -- A round leaves a shorter text, so its length is fuel enough.
  unfoldable pub unpack : Text → List (Text × O)
  unpack str = unpack_from (length str) str

  -- The two results: all objects, and the objects of one name.
  unfoldable pub list : Text → List O
  list str = map (λ r. r.1) (unpack str)

  unfoldable pub named : Text → List (Text × O) → List O
  named name [] = []
  named name ((n, obj) ∷ rs) =
      let more = named name rs in if text_eq n name then obj ∷ more else more
