-- ===== src/Net/Client/Tests.antt =====
-- A connection that ends, and a message of one program to the other.
use perfect_miner.Prelude.{ℕ, refl, inr}
use perfect_miner.Net.Client.{NetClient, accepted_client, emit, recv_data, on_close}
use perfect_miner.Net.Client.Stage.{live}
use perfect_miner.Net.Client.Trace.{
  Reach, begin, told, finished, IsOrdered, Reach-IsOrdered, accepted,
}
use perfect_miner.Net.Emitter

abbrev served_client : NetClient ℕ
served_client = on_close (recv_data 7 accepted_client)

served_client-Reach : Reach accepted_client served_client
unfolding accepted_client recv_data emit
served_client-Reach = finished (told 7 begin refl) (inr refl)

Reach-IsOrdered_example : IsOrdered live served_client
Reach-IsOrdered_example = Reach-IsOrdered accepted served_client-Reach
