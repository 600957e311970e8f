-- ===== src/WebStat/Base/Tests.antt =====
-- Three browsers, the first two of which are gone.
use perfect_miner.Prelude.{◌≡◌, refl, true, false, [], ◌∷◌}
use perfect_miner.WebStat.Base.{Socket, web_emit, AllConnected, web_emit_lem}

abbrev browser_1 : Socket
browser_1 = record { id = 1; connected = false }

abbrev browser_2 : Socket
browser_2 = record { id = 2; connected = false }

abbrev browser_3 : Socket
browser_3 = record { id = 3; connected = true }

web_emit_lem_example :
    (web_emit (browser_1 ∷ []) ≡ [])
    × (web_emit (browser_1 ∷ browser_2 ∷ browser_3 ∷ []) ≡ browser_2 ∷ [])
unfolding AllConnected
web_emit_lem_example = web_emit_lem [] [] browser_1 browser_2 browser_3 tt tt refl refl refl
