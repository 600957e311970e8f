-- ===== src/WebServer.antt =====
-- ControlServer/WebServer.js: which file a request of a browser gets. The files, and `url.parse`, which
-- gives the path of a request, are parameters.
pub mod Served
mod Tests
use perfect_miner.Prelude.{
  ℕ, Bool, true, false, not, Option, none, some, List, [], ◌∷◌, ◌++◌, ◌==◌, ◌&&◌, ◌||◌, leb,
  if◌then◌else◌,
}
use perfect_miner.Prelude.Text.{Text, codes, text_eq}

-- /\.\./
unfoldable pub has_dots : Text → Bool
has_dots [] = false
has_dots (a ∷ []) = false
has_dots (a ∷ b ∷ t) = ((a == 46) && (b == 46)) || has_dots (b ∷ t)

-- A character that /[^a-zA-Z0-9_\-\.\/]/ does not match.
unfoldable pub is_plain : ℕ → Bool
is_plain c =
    (leb 97 c && leb c 122)
    || (leb 65 c && leb c 90)
    || (leb 48 c && leb c 57)
    || (c == 95)
    || (c == 45)
    || (c == 46)
    || (c == 47)

unfoldable pub all_plain : Text → Bool
all_plain [] = true
all_plain (c ∷ t) = is_plain c && all_plain t

unfoldable pub has_dot : Text → Bool
has_dot [] = false
has_dot (c ∷ t) = (c == 46) || has_dot t

-- The group of /\.([^\.]+)$/: what stands behind the last dot, if that is something.
unfoldable pub extension : Text → Option Text
extension [] = none
extension (c ∷ []) = none
extension (c ∷ d ∷ t) =
    let rest = extension (d ∷ t) in
    if (c == 46) && not (has_dot (d ∷ t)) then some (d ∷ t) else rest

unfoldable pub content_type : Option Text → Option Text
content_type none = none
content_type (some ext) =
    if text_eq ext (codes "js")
    then some (codes "text/javascript")
    else if text_eq ext (codes "htm") || text_eq ext (codes "html")
    then some (codes "text/html")
    else if text_eq ext (codes "css")
    then some (codes "text/css")
    else none

pub data Response : Type 0 where
  ok : Text → Text → Response
  not_found : Response

unfoldable pub answer : Text → Option Text → Response
answer kind none = not_found
answer kind (some body) = ok kind body

unfoldable pub index_of : Text → Text
index_of path = if text_eq path (codes "/") then codes "/index.html" else path

module _ (exists_file : Text → Bool) (read_file : Text → Option Text) where
  -- The loop over `webPublicDirs`.
  unfoldable pub find_in : List Text → Text → Text → Response
  find_in [] name kind = not_found
  find_in (dir ∷ dirs) name kind =
      let rest = find_in dirs name kind in
      if exists_file (dir ++ name) then answer kind (read_file (dir ++ name)) else rest

  unfoldable pub serve : List Text → Text → Response
  serve dirs name = elim (content_type (extension name)) [
    | none ↦ not_found
    | some kind ↦ find_in dirs name kind
  ]

  unfoldable pub on_connect_web_http : List Text → Text → Response
  on_connect_web_http dirs path =
      if has_dots path || not (all_plain path) then not_found else serve dirs (index_of path)
