-- ===== src/Net.antt =====
-- The receivers of Share/Net/NetCommon.js and ControlServer/StratumCommon.js (under
-- src/apps/Control/app): a byte stream that arrives in chunks becomes JSON values, one a line.
-- The socket has decoded UTF-8 across the chunks (`setEncoding`). `JSON.parse` is a parameter. The
-- callbacks do not call back into the receiver.
pub mod Emitter
pub mod Client
pub mod Lines
pub mod Stream
mod Tests
use perfect_miner.Prelude.{
  ℕ, Bool, true, false, ◌||◌, Option, none, some, List, [], ◌∷◌, ◌++◌, reverse, length, ltb, leb,
  ◌&&◌, ◌==◌, if◌then◌else◌,
}
use perfect_miner.Prelude.Text.{Text, codes}

abbrev pub is_eol : ℕ → Bool
is_eol c = (c == 10) || (c == 13)

-- The matches of `/[^\r\n]*[\r\n]/g`, each with its end, and what no match covers.
abbrev pub glue : ℕ → List Text → List Text
glue c [] = []
glue c (l ∷ ls) = (c ∷ l) ∷ ls

unfoldable pub lines : Text → List Text
lines [] = []
lines (c ∷ t) = let ls = lines t in if is_eol c then (c ∷ []) ∷ ls else glue c ls

unfoldable pub has_eol : Text → Bool
has_eol [] = false
has_eol (c ∷ t) = is_eol c || has_eol t

unfoldable pub rest : Text → Text
rest [] = []
rest (c ∷ t) = let r = rest t in if is_eol c || has_eol t then r else c ∷ r

-- `String.prototype.trim`: the white space and the line ends of ECMAScript.
unfoldable pub is_space : ℕ → Bool
is_space c =
    (leb 9 c && leb c 13)
    || (c == 32)
    || (c == 160)
    || (c == 5760)
    || (leb 8192 c && leb c 8202)
    || (c == 8232)
    || (c == 8233)
    || (c == 8239)
    || (c == 8287)
    || (c == 12288)
    || (c == 65279)

unfoldable pub trim_start : Text → Text
trim_start [] = []
trim_start (c ∷ t) = let s = trim_start t in if is_space c then s else c ∷ t

unfoldable pub trim : Text → Text
trim s = reverse (trim_start (reverse (trim_start s)))

pub data Reason : Type 0 where
  overflow invalid_json : Reason

-- The calls of `onrecv` and `onerror`.
pub data Output (J : Type 0) : Type 0 where
  received : J → Output J
  failed : Reason → Output J

pub record Recv (J : Type 0) : Type 0 where
  pub max_buf_size : ℕ
  pub closed : Bool
  pub buffer : Text
  pub outputs : List (Output J)

module _ {J : Type 0} (parse : Text → Option J) where
  unfoldable pub new_recv : ℕ → Recv J
  new_recv n = record { max_buf_size = n; closed = false; buffer = []; outputs = [] }

  unfoldable pub error : Reason → Recv J → Recv J
  error why r = record r { closed = true; outputs = r.outputs ++ failed why ∷ [] }

  unfoldable pub on_json : Option J → Recv J → Recv J
  on_json none r = error invalid_json r
  on_json (some j) r = record r { outputs = r.outputs ++ received j ∷ [] }

  unfoldable pub deliver : Text → Recv J → Recv J
  deliver [] r = r
  deliver (c ∷ m) r = on_json (parse (c ∷ m)) r

  -- The replacer: once closed it returns `undefined`, which `replace` puts in as text.
  unfoldable pub on_line : Text → Recv J → Recv J
  on_line m r =
      if r.closed then record r { buffer = r.buffer ++ codes "undefined" } else deliver (trim m) r

  -- `buffer` is what the replacements have made so far.
  unfoldable pub on_lines : List Text → Recv J → Recv J
  on_lines [] r = r
  on_lines (m ∷ ms) r = on_lines ms (on_line m r)

  unfoldable pub split_up : Text → Recv J → Recv J
  split_up text r =
      let r' = on_lines (lines text) (record r { buffer = [] }) in
      record r' { buffer = r'.buffer ++ rest text }

  unfoldable pub recv : Text → Recv J → Recv J
  recv chunk r =
      let text = r.buffer ++ chunk in
      if r.closed
      then r
      else if ltb r.max_buf_size (length text)
      then record (error overflow r) { buffer = [] }
      else split_up text r

  unfoldable pub recv_all : List Text → Recv J → Recv J
  recv_all [] r = r
  recv_all (c ∷ cs) r = recv_all cs (recv c r)

  -- The receiver of StratumCommon.js: its buffer has no limit, and a line that is no JSON throws out
  -- of the loop, which leaves an empty buffer. The values before it are delivered.
  unfoldable pub parse_lines : List Text → List J × Bool
  parse_lines [] = ([], true)
  parse_lines (m ∷ ms) =
      let (js, fine) = parse_lines ms in
      let text = trim m in
      elim text [
        | [] ↦ (js, fine)
        | c ∷ t ↦ elim (parse (c ∷ t)) [ none ↦ ([], false) | some j ↦ (j ∷ js, fine) ]
      ]

  -- The values, the result, and the buffer that is left.
  unfoldable pub stratum_recv : Text → Text → List J × Bool × Text
  stratum_recv incoming_buf chunk =
      let text = incoming_buf ++ chunk in
      let (js, fine) = parse_lines (lines text) in (js, fine, if fine then rest text else [])
