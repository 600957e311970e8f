-- ===== src/Net/Tests.antt =====
-- A stream of three lines in four chunks; a line that begins with `x` is no JSON.
use perfect_miner.Prelude.{
  ℕ, ◌≡◌, refl, Option, none, some, List, [], ◌∷◌, ◌++◌, arith, length, ◌==◌, if◌then◌else◌,
}
use perfect_miner.Prelude.Text.{Text, codes}
use perfect_miner.Net.{
  received, failed, invalid_json, new_recv, recv_all, recv, on_lines, lines, rest, has_eol, on_line,
  on_json, deliver, error, split_up, trim, trim_start, is_space,
}
use perfect_miner.Net.Stream.{IsAlike, recv_all_lem, concat}

abbrev read : Text → Option ℕ
read [] = none
read (c ∷ t) = if c == 120 then none else some (length (c ∷ t))

abbrev chunks : List Text
chunks =
    codes "12"
    ∷ (codes "3" ++ 13 ∷ 10 ∷ codes " 4")
    ∷ (10 ∷ codes "x")
    ∷ (codes "yz" ++ 10 ∷ codes "5" ++ 10 ∷ [])
    ∷ []

calls_made :
    (recv_all read chunks (new_recv read 16)).outputs
    ≡ received 3 ∷ received 1 ∷ failed invalid_json ∷ []
unfolding new_recv recv_all recv on_lines lines rest has_eol on_line on_json deliver error split_up
    trim trim_start is_space
calls_made = refl

recv_all_lem_example :
    IsAlike
      (recv_all read chunks (new_recv read 16))
      (on_lines read (lines (concat chunks)) (new_recv read 16))
unfolding rest has_eol
recv_all_lem_example =
    recv_all_lem read 16 chunks (omega arith, (omega arith, (omega arith, (omega arith, tt))))
