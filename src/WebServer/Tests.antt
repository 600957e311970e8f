-- ===== src/WebServer/Tests.antt =====
-- A page of the second of two folders, and two requests that are refused.
use perfect_miner.Prelude.{Bool, Option, none, some, ◌≡◌, refl, List, [], ◌∷◌, if◌then◌else◌}
use perfect_miner.Prelude.Text.{Text, codes, text_eq}
use perfect_miner.WebServer.{
  on_connect_web_http, not_found, has_dots, all_plain, is_plain, serve, content_type, extension,
  index_of, has_dot, find_in, answer,
}
use perfect_miner.WebServer.Served.{Served, on_connect_web_http_lem}

abbrev stored : Text → Bool
stored path = text_eq path (codes "b/index.html")

abbrev contents : Text → Option Text
contents path = if stored path then some (codes "hi") else none

abbrev folders : List Text
folders = codes "a" ∷ codes "b" ∷ []

on_connect_web_http_lem_example :
    Served stored contents folders (codes "/") (codes "text/html") (codes "hi")
unfolding on_connect_web_http has_dots all_plain is_plain serve content_type extension index_of
    has_dot find_in answer text_eq
on_connect_web_http_lem_example =
    on_connect_web_http_lem stored contents folders (codes "/") (codes "text/html") (codes "hi")
      refl

climbing : on_connect_web_http stored contents folders (codes "/../b/index.html") ≡ not_found
unfolding on_connect_web_http text_eq has_dots
climbing = refl

no_ending : on_connect_web_http stored contents folders (codes "/index") ≡ not_found
unfolding on_connect_web_http has_dots all_plain is_plain serve content_type extension index_of
    has_dot find_in answer text_eq
no_ending = refl
