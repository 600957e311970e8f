-- ===== src/Net/Stream.antt =====
-- The chunks do not matter: what a receiver delivers are the lines of the whole stream.
use perfect_miner.Prelude.{
  ℕ, ◌≡◌, ◌≤◌, refl, ap, sym, subst, ◌∙◌, true, false, Option, List, [], ◌∷◌, ◌++◌, append-nil,
  append_assoc, arith, length, ltb, Bool-cases, inl, inr,
}
use perfect_miner.Prelude.Text.{Text, codes}
use perfect_miner.Net.{
  Recv, lines, has_eol, rest, trim, new_recv, error, on_json, deliver, on_line, on_lines, split_up,
  recv, recv_all,
}
use perfect_miner.Net.Lines.{lines-unended, has_eol-rest, lines-append}

abbrev pub concat : List Text → Text
concat [] = []
concat (c ∷ cs) = c ++ concat cs

-- No chunk makes the unended line and itself longer than the buffer.
abbrev pub Fits : ℕ → Text → List Text → Type 0
Fits n left [] = Unit {0}
Fits n left (c ∷ cs) = (length (left ++ c) ≤ n) × Fits n (rest (left ++ c)) cs

module _ {J : Type 0} where
  -- The same calls so far, and the same end.
  pub record IsAlike (r s : Recv J) : Type 0 where
    pub same_outputs : r.outputs ≡ s.outputs
    pub same_closed : r.closed ≡ s.closed

  abbrev emptied : Recv J → Recv J
  emptied r = record r { buffer = [] }

module _ {J : Type 0} (parse : Text → Option J) where
  on_lines-append :
      (xs ys : List Text) (r : Recv J)
      → on_lines parse (xs ++ ys) r ≡ on_lines parse ys (on_lines parse xs r)
  unfolding on_lines
  on_lines-append [] ys r = refl
  on_lines-append (x ∷ xs) ys r = on_lines-append xs ys (on_line parse x r)

  -- A closed receiver calls nobody.
  on_lines-closed :
      (ms : List Text) (r : Recv J) → r.closed ≡ true → IsAlike (on_lines parse ms r) r
  unfolding on_lines on_line
  on_lines-closed [] r h = record { same_outputs = refl; same_closed = refl }
  on_lines-closed (m ∷ ms) r h =
      let skipped : on_line parse m r ≡ record r { buffer = r.buffer ++ codes "undefined" } =
        rw h refl in
      let on = on_lines-closed ms (record r { buffer = r.buffer ++ codes "undefined" }) h in
      record {
        same_outputs = ap (λ q. (on_lines parse ms q).outputs) skipped ∙ on.same_outputs;
        same_closed = ap (λ q. (on_lines parse ms q).closed) skipped ∙ on.same_closed;
      }

  deliver-buffer : (m : Text) (r : Recv J) → (deliver parse m r).buffer ≡ r.buffer
  unfolding deliver on_json error
  deliver-buffer [] r = refl
  deliver-buffer (c ∷ m) r = ground arith

  deliver-max : (m : Text) (r : Recv J) → (deliver parse m r).max_buf_size ≡ r.max_buf_size
  unfolding deliver on_json error
  deliver-max [] r = refl
  deliver-max (c ∷ m) r = ground arith

  on_lines-max : (ms : List Text) (r : Recv J) → (on_lines parse ms r).max_buf_size ≡ r.max_buf_size
  unfolding on_lines on_line
  on_lines-max [] r = refl
  on_lines-max (m ∷ ms) r =
      ground (arith, on_lines-max ms (on_line parse m r), deliver-max (trim m) r)

  -- A receiver that is still open has put in nothing.
  on_lines-open :
      (ms : List Text) (r : Recv J)
      → (on_lines parse ms r).closed ≡ false
      → (on_lines parse ms r).buffer ≡ r.buffer
  unfolding on_lines
  on_lines-open [] r h = refl
  on_lines-open (m ∷ ms) r h = elim (Bool-cases r.closed) [
    | inl shut ↦
        let stays = (on_lines-closed (m ∷ ms) r shut).same_closed in
        absurd (ground (arith, stays, h, shut))
    | inr up ↦
        on_lines-open ms (on_line parse m r) h
        ∙ (unfold on_line in simp up (deliver-buffer (trim m) r))
  ]

  recv_all-closed : (cs : List Text) (r : Recv J) → r.closed ≡ true → recv_all parse cs r ≡ r
  unfolding recv_all recv
  recv_all-closed [] r h = refl
  recv_all-closed (c ∷ cs) r h = simp h (recv_all-closed cs r h)

  -- From any open receiver.
  recv_all-from :
      (cs : List Text) (r : Recv J)
      → r.closed ≡ false
      → has_eol r.buffer ≡ false
      → Fits r.max_buf_size r.buffer cs
      → IsAlike (recv_all parse cs r) (on_lines parse (lines (r.buffer ++ concat cs)) (emptied r))
  unfolding recv_all
  recv_all-from [] r up e f =
      let none_left : lines (r.buffer ++ []) ≡ [] = rw append-nil (lines-unended r.buffer e) in
      unfold on_lines in rw none_left (record { same_outputs = refl; same_closed = refl })
  recv_all-from (c ∷ cs) r up e f =
      let text = r.buffer ++ c in
      let q = on_lines parse (lines text) (emptied r) in
      let after = rest text ++ concat cs in
      let parts : on_lines parse (lines (r.buffer ++ concat (c ∷ cs))) (emptied r)
          ≡ on_lines parse (lines after) q =
        ap (λ t. on_lines parse (lines t) (emptied r)) (sym (append_assoc r.buffer c (concat cs)))
        ∙ ap (λ ls. on_lines parse ls (emptied r)) (lines-append text (concat cs))
        ∙ on_lines-append (lines text) (lines after) (emptied r) in
      let fits : ltb r.max_buf_size (length text) ≡ false = ground (arith, f.0) in
      let first : recv parse c r ≡ record q { buffer = q.buffer ++ rest text } =
        unfold recv split_up in rw up (rw fits refl) in
      elim (Bool-cases q.closed) [
        | inl shut ↦
            let stops = on_lines-closed (lines after) q shut in
            let r' = record q { buffer = q.buffer ++ rest text } in
            let ends : recv_all parse cs (recv parse c r) ≡ r' =
              ap (recv_all parse cs) first ∙ recv_all-closed cs r' shut in
            record {
              same_outputs =
                  ap (λ x. x.outputs) ends
                  ∙ sym stops.same_outputs
                  ∙ sym (ap (λ x. x.outputs) parts);
              same_closed =
                  ap (λ x. x.closed) ends ∙ sym stops.same_closed ∙ sym (ap (λ x. x.closed) parts);
            }
        | inr still ↦
            let empty : q.buffer ≡ [] = on_lines-open (lines text) (emptied r) still in
            let r' = record q { buffer = rest text } in
            let same_max : q.max_buf_size ≡ r.max_buf_size =
              on_lines-max (lines text) (emptied r) in
            let more =
              recv_all-from cs r' still (has_eol-rest text)
                (subst (λ n. Fits n (rest text) cs) (sym same_max) f.1) in
            let begins : recv parse c r ≡ r' =
              first ∙ ap (λ b. record q { buffer = b ++ rest text }) empty in
            let goes_on : emptied r' ≡ q = ap (λ b. record q { buffer = b }) (sym empty) in
            record {
              same_outputs =
                  ap (λ x. (recv_all parse cs x).outputs) begins
                  ∙ more.same_outputs
                  ∙ ap (λ x. (on_lines parse (lines after) x).outputs) goes_on
                  ∙ sym (ap (λ x. x.outputs) parts);
              same_closed =
                  ap (λ x. (recv_all parse cs x).closed) begins
                  ∙ more.same_closed
                  ∙ ap (λ x. (on_lines parse (lines after) x).closed) goes_on
                  ∙ sym (ap (λ x. x.closed) parts);
            }
      ]

  -- However the stream is cut into chunks, a new receiver makes the calls, and ends open or closed,
  -- as if it had read the lines of the whole stream, if its buffer holds every unended line together
  -- with the next chunk.
  pub recv_all_lem :
      (n : ℕ) (cs : List Text)
      → Fits n [] cs
      → IsAlike
          (recv_all parse cs (new_recv parse n))
          (on_lines parse (lines (concat cs)) (new_recv parse n))
  unfolding new_recv has_eol
  recv_all_lem n cs f = recv_all-from cs (new_recv parse n) refl refl f
