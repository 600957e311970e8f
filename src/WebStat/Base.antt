-- ===== src/WebStat/Base.antt =====
-- `Base` of ControlServer/WebStat/WebStatBase.js: the sockets of the browsers, which get what is emitted.
mod Tests
use perfect_miner.Prelude.{
  ℕ, zero, suc, ◌+◌, ◌≡◌, refl, ap, sym, ◌∙◌, Bool, true, false, List, [], ◌∷◌, ◌++◌, length, arith,
  if◌then◌else◌,
}

pub record Socket : Type 0 where
  pub id : ℕ
  pub connected : Bool

-- The indexes of the sockets that are not connected, counted from `i`.
unfoldable pub free_sockets : ℕ → List Socket → List ℕ
free_sockets i [] = []
free_sockets i (s ∷ ss) =
    let rest = free_sockets (suc i) ss in if s.connected then rest else i ∷ rest

-- The sockets that a message is sent to.
unfoldable pub receivers : List Socket → List ℕ
receivers [] = []
receivers (s ∷ ss) = let rest = receivers ss in if s.connected then s.id ∷ rest else rest

-- `splice(i, 1)`
unfoldable pub splice_one : ℕ → List Socket → List Socket
splice_one i [] = []
splice_one zero (s ∷ ss) = ss
splice_one (suc i) (s ∷ ss) = s ∷ splice_one i ss

unfoldable pub splice_all : List ℕ → List Socket → List Socket
splice_all [] ss = ss
splice_all (i ∷ is) ss = splice_all is (splice_one i ss)

-- `webEmit` to all: the sockets that are left.
unfoldable pub web_emit : List Socket → List Socket
web_emit ss = splice_all (free_sockets 0 ss) ss

pub AllConnected : List Socket → Type 0
AllConnected [] = Unit {0}
AllConnected (s ∷ ss) = (s.connected ≡ true) × AllConnected ss

free_sockets-none : (i : ℕ) (ss : List Socket) → AllConnected ss → free_sockets i ss ≡ []
unfolding free_sockets AllConnected
free_sockets-none i [] h = refl
free_sockets-none i (s ∷ ss) (c, h) = rw c (free_sockets-none (suc i) ss h)

free_sockets-append :
    (i : ℕ) (ss ts : List Socket)
    → AllConnected ss
    → free_sockets i (ss ++ ts) ≡ free_sockets (i + length ss) ts
unfolding free_sockets AllConnected
free_sockets-append i [] ts h =
    let same : i ≡ i + 0 = omega arith in ap (λ k. free_sockets k ts) same
free_sockets-append i (s ∷ ss) ts (c, h) =
    let same : suc i + length ss ≡ i + suc (length ss) = omega arith in
    rw c (free_sockets-append (suc i) ss ts h ∙ ap (λ k. free_sockets k ts) same)

splice_one-append :
    (ss ts : List Socket) (s : Socket) → splice_one (length ss) (ss ++ s ∷ ts) ≡ ss ++ ts
unfolding splice_one
splice_one-append [] ts s = refl
splice_one-append (x ∷ ss) ts s = ap (λ l. x ∷ l) (splice_one-append ss ts s)

splice_next :
    (ss ts : List Socket) (a b : Socket)
    → splice_one (suc (length ss)) (ss ++ a ∷ b ∷ ts) ≡ ss ++ a ∷ ts
unfolding splice_one
splice_next [] ts a b = refl
splice_next (x ∷ ss) ts a b = ap (λ l. x ∷ l) (splice_next ss ts a b)

one_free :
    (ss rest : List Socket) (gone : Socket)
    → AllConnected ss
    → AllConnected rest
    → gone.connected ≡ false
    → free_sockets 0 (ss ++ gone ∷ rest) ≡ length ss ∷ []
unfolding free_sockets
one_free ss rest gone hs hr g =
    let same : 0 + length ss ≡ length ss = omega arith in
    free_sockets-append 0 ss (gone ∷ rest) hs
    ∙ ap (λ k. free_sockets k (gone ∷ rest)) same
    ∙ rw (g, free_sockets-none (suc (length ss)) rest hr) refl

two_free :
    (ss rest : List Socket) (gone also_gone live : Socket)
    → AllConnected ss
    → AllConnected rest
    → gone.connected ≡ false
    → also_gone.connected ≡ false
    → live.connected ≡ true
    → free_sockets 0 (ss ++ gone ∷ also_gone ∷ live ∷ rest) ≡ length ss ∷ suc (length ss) ∷ []
unfolding free_sockets
two_free ss rest gone also_gone live hs hr g a l =
    let same : 0 + length ss ≡ length ss = omega arith in
    free_sockets-append 0 ss (gone ∷ also_gone ∷ live ∷ rest) hs
    ∙ ap (λ k. free_sockets k (gone ∷ also_gone ∷ live ∷ rest)) same
    ∙ rw (g, a, l, free_sockets-none (suc (suc (suc (length ss)))) rest hr) refl

-- Of one socket that is gone, wherever it stands, webEmit drops this one alone. Of two that stand side
-- by side, with a connected one behind them, it drops the first and the connected one, and keeps the
-- second.
pub web_emit_lem :
    (ss rest : List Socket) (gone also_gone live : Socket)
    → AllConnected ss
    → AllConnected rest
    → gone.connected ≡ false
    → also_gone.connected ≡ false
    → live.connected ≡ true
    → (web_emit (ss ++ gone ∷ rest) ≡ ss ++ rest)
      × (web_emit (ss ++ gone ∷ also_gone ∷ live ∷ rest) ≡ ss ++ also_gone ∷ rest)
unfolding web_emit splice_all
web_emit_lem ss rest gone also_gone live hs hr g a l = (
  ap (λ is. splice_all is (ss ++ gone ∷ rest)) (one_free ss rest gone hs hr g)
      ∙ splice_one-append ss rest gone,
  ap (λ is. splice_all is (ss ++ gone ∷ also_gone ∷ live ∷ rest))
        (two_free ss rest gone also_gone live hs hr g a l)
      ∙ ap (splice_one (suc (length ss))) (splice_one-append ss (also_gone ∷ live ∷ rest) gone)
      ∙ splice_next ss rest also_gone live,
)
