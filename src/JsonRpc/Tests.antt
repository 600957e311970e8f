-- ===== src/JsonRpc/Tests.antt =====
-- Two calls, of which the second has had its result.
use perfect_miner.Prelude.{◌≡◌, refl, false, some}
use perfect_miner.Prelude.KeyMap.{lookup, insert, remove}
use perfect_miner.JsonRpc.{
  canonical, object, Client, new_client, put, send_method, on_result, on_recv,
}
use perfect_miner.JsonRpc.Results.{Reach, start, next, calls, hears, IsSettled, Reach-IsSettled}

abbrev called : Client
called = send_method 7 (send_method 5 new_client)

abbrev heard : Client
heard = on_result 9 2 called

heard-Reach : Reach heard
unfolding on_recv
heard-Reach =
    next (next (next start (calls 5 new_client)) (calls 7 (send_method 5 new_client)))
      (hears 9 (object (canonical 2) false) called heard refl)

heard_ping : heard.ping ≡ some 2
unfolding on_result put send_method new_client lookup insert remove
heard_ping = refl

Reach-IsSettled_example : IsSettled heard
Reach-IsSettled_example = Reach-IsSettled heard-Reach
