-- ===== src/WebServer/Served.antt =====
-- What ControlServer/WebServer.js hands out lies in the public folders.
use perfect_miner.Prelude.{
  ℕ, ◌≤◌, ◌≡◌, ◌≢◌, ◌⊎◌, refl, sym, ap, ◌∙◌, Bool, true, false, Option, Option-cases, none, some,
  List, [], ◌∷◌, ◌++◌, arith, Bool-cases, inl, inr,
}
use perfect_miner.Prelude.Text.{Text, codes, text_eq}
use perfect_miner.WebServer.{
  has_dots, is_plain, all_plain, extension, content_type, ok, answer, index_of, find_in, serve,
  on_connect_web_http,
}

-- A letter, a digit, or one of _ - . /
abbrev pub Plain : ℕ → Type 0
Plain c =
    ((97 ≤ c) × (c ≤ 122))
    ⊎ ((65 ≤ c) × (c ≤ 90))
    ⊎ ((48 ≤ c) × (c ≤ 57))
    ⊎ (c ≡ 95)
    ⊎ (c ≡ 45)
    ⊎ (c ≡ 46)
    ⊎ (c ≡ 47)

abbrev pub AllPlain : Text → Type 0
AllPlain [] = Unit {0}
AllPlain (c ∷ t) = Plain c × AllPlain t

-- Two dots stand nowhere side by side.
abbrev pub NoDots : Text → Type 0
NoDots t = (a b : Text) → t ≢ a ++ 46 ∷ 46 ∷ b

is_plain-Plain : (c : ℕ) → is_plain c ≡ true → Plain c
unfolding is_plain
is_plain-Plain c h = ground arith

all_plain-AllPlain : (t : Text) → all_plain t ≡ true → AllPlain t
unfolding all_plain
all_plain-AllPlain [] h = tt
all_plain-AllPlain (c ∷ t) h =
    (is_plain-Plain c (ground arith), all_plain-AllPlain t (ground arith))

dots_seen : (a b : Text) → has_dots (a ++ 46 ∷ 46 ∷ b) ≡ true
unfolding has_dots
dots_seen [] b = refl
dots_seen (x ∷ []) b = ground arith
dots_seen (x ∷ y ∷ a) b = ground (arith, dots_seen (y ∷ a) b)

has_dots-NoDots : (t : Text) → has_dots t ≡ false → NoDots t
has_dots-NoDots t h a b e = let wrong : false ≡ true = sym h ∙ ap has_dots e ∙ dots_seen a b in cc

module _ (exists_file : Text → Bool) (read_file : Text → Option Text) where
  abbrev pub NoneHas : Text → List Text → Type 0
  NoneHas name [] = Unit {0}
  NoneHas name (dir ∷ dirs) = (exists_file (dir ++ name) ≡ false) × NoneHas name dirs

  -- The file is the one of the first folder that has the name.
  pub record Served (dirs : List Text) (path kind body : Text) : Type 0 where
    pub skipped : List Text
    pub dir : Text
    pub others : List Text
    pub split : dirs ≡ skipped ++ dir ∷ others
    pub earlier : NoneHas (index_of path) skipped
    pub is_read : read_file (dir ++ index_of path) ≡ some body
    pub is_kind : content_type (extension (index_of path)) ≡ some kind
    pub plain : AllPlain (index_of path)
    pub no_dots : NoDots (index_of path)

  answer_inv :
      (kind k body : Text) (o : Option Text)
      → answer kind o ≡ ok k body
      → (o ≡ some body) × (kind ≡ k)
  unfolding answer
  answer_inv kind k body none h = absurd (ground arith)
  answer_inv kind k body (some b) h = (ground arith, ground arith)

  found_in :
      (dirs : List Text) (name kind k body : Text)
      → find_in exists_file read_file dirs name kind ≡ ok k body
      → (skipped : List Text) × (dir : Text) × (others : List Text) × (dirs
          ≡ skipped ++ dir ∷ others)
        × NoneHas name skipped
        × (read_file (dir ++ name) ≡ some body)
        × (kind ≡ k)
  unfolding find_in answer
  found_in [] name kind k body h = cc
  found_in (dir ∷ dirs) name kind k body h = elim (Bool-cases (exists_file (dir ++ name))) [
    | inl here ↦
        let (r, q) = answer_inv kind k body (read_file (dir ++ name)) (ground (arith, here)) in
        ([], dir, dirs, refl, tt, r, q)
    | inr missing ↦
        let (s, d, o, e, n, r, q) = found_in dirs name kind k body (ground (arith, missing)) in
        (dir ∷ s, d, o, ap (◌∷◌ dir) e, (missing, n), r, q)
  ]

  index_lem :
      (path : Text)
      → has_dots path ≡ false
      → all_plain path ≡ true
      → (has_dots (index_of path) ≡ false) × (all_plain (index_of path) ≡ true)
  unfolding index_of has_dots all_plain is_plain
  index_lem path d p = elim (Bool-cases (text_eq path (codes "/"))) [
    | inl e ↦ rw e (refl, refl)
    | inr e ↦ rw e (d, p)
  ]

  -- What a browser is answered is a file of a public folder, the first that has the name; the name is
  -- the path of the request (or index.html), has letters, digits and _ - . / alone and no two dots side
  -- by side, and the type that is told is the one of its ending.
  pub on_connect_web_http_lem :
      (dirs : List Text) (path kind body : Text)
      → on_connect_web_http exists_file read_file dirs path ≡ ok kind body
      → Served dirs path kind body
  unfolding on_connect_web_http serve
  on_connect_web_http_lem dirs path kind body h = elim (Bool-cases (has_dots path)) [
    | inl dots ↦ absurd (ground (arith, dots))
    | inr clean ↦ elim (Bool-cases (all_plain path)) [
      | inl plain ↦ elim (Option-cases (content_type (extension (index_of path)))) [
        | inl e ↦ absurd (ground (arith, clean, plain, e))
        | inr (k, e) ↦
            let (s, d, o, split, earlier, r, q) =
              found_in dirs (index_of path) k kind body (ground (arith, clean, plain, e)) in
            let (nd, ap') = index_lem path clean plain in
            record {
              skipped = s;
              dir = d;
              others = o;
              split = split;
              earlier = earlier;
              is_read = r;
              is_kind = e ∙ ap some q;
              plain = all_plain-AllPlain (index_of path) ap';
              no_dots = has_dots-NoDots (index_of path) nd;
            }
      ]
      | inr odd ↦ absurd (ground (arith, clean, odd))
    ]
  ]
