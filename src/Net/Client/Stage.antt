-- ===== src/Net/Client/Stage.antt =====
-- Where a client of Share/Net/NetClient.js stands in the order of its events.
use perfect_miner.Prelude.{◌≡◌, refl, Bool, true, false, Option, none, some, arith}
use perfect_miner.Net.Client.{Socket, opening, ready, ended}

-- What a listener may rely on: a client opens, connects, brings data, disconnects and closes, in this
-- order; where it never connects it closes alone; and nothing follows.
pub data Stage : Type 0 where
  fresh begun live down over : Stage

-- The stage, from where the socket and the flags stand.
pub data At : Bool → Option Socket → Bool → Stage → Type 0 where
  unmade : At false none false fresh
  unopened : At true none false over
  dialling : At true (some opening) false begun
  linked : At true (some ready) true live
  gone : At true (some ended) false over

pub fresh_place :
    {cr : Bool} {so : Option Socket} {co : Bool} {st : Stage}
    → At cr so co st
    → cr ≡ false
    → (so ≡ none) × (co ≡ false) × (st ≡ fresh)
fresh_place unmade h = (refl, refl, refl)
fresh_place unopened h = absurd (ground arith)
fresh_place dialling h = absurd (ground arith)
fresh_place linked h = absurd (ground arith)
fresh_place gone h = absurd (ground arith)

pub begun_place :
    {cr : Bool} {so : Option Socket} {co : Bool} {st : Stage}
    → At cr so co st
    → so ≡ some opening
    → (cr ≡ true) × (co ≡ false) × (st ≡ begun)
begun_place unmade h = absurd (ground arith)
begun_place unopened h = absurd (ground arith)
begun_place dialling h = (refl, refl, refl)
begun_place linked h = absurd (ground arith)
begun_place gone h = absurd (ground arith)

pub live_place :
    {cr : Bool} {so : Option Socket} {co : Bool} {st : Stage}
    → At cr so co st
    → so ≡ some ready
    → (cr ≡ true) × (co ≡ true) × (st ≡ live)
live_place unmade h = absurd (ground arith)
live_place unopened h = absurd (ground arith)
live_place dialling h = absurd (ground arith)
live_place linked h = (refl, refl, refl)
live_place gone h = absurd (ground arith)

pub placed :
    {cr cr' : Bool} {so so' : Option Socket} {co co' : Bool} {st : Stage}
    → cr ≡ cr'
    → so ≡ so'
    → co ≡ co'
    → At cr' so' co' st
    → At cr so co st
placed a b c p = rw (a, b, c) p
