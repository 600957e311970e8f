-- ===== src/Bytes/Counter.antt =====
-- A buffer as a counter to base 256, the lowest digit first.
use perfect_miner.Prelude.{
  ◌+◌, ◌%◌, ◌^◌, ◌<◌, ◌≡◌, refl, [], ◌∷◌, arith, length, ◌==◌, if◌then◌else◌,
}
use native.Mathlib.Nat.{pow-suc}
use perfect_miner.Bytes.{Bytes, AllBytes, le_value}

-- `for … { b[i]++; if ( b[i] ) break; }` on a Buffer, whose elements wrap at 256.
unfoldable pub increment : Bytes → Bytes
increment [] = []
increment (b ∷ bs) = if (b + 1) % 256 == 0 then 0 ∷ increment bs else (b + 1) % 256 ∷ bs

pub length-increment : (bs : Bytes) → length (increment bs) ≡ length bs
unfolding increment
length-increment [] = refl
length-increment (b ∷ bs) = ground (arith, length-increment bs)

pub increment-AllBytes : (bs : Bytes) → AllBytes bs → AllBytes (increment bs)
unfolding increment
increment-AllBytes [] h = tt
increment-AllBytes (b ∷ bs) h = ground (arith, increment-AllBytes bs h.1)

pub le_value-lt : (bs : Bytes) → AllBytes bs → le_value bs < 256 ^ length bs
unfolding le_value
le_value-lt [] h = omega arith
le_value-lt (b ∷ bs) h = rw pow-suc (omega (arith, le_value-lt bs h.1))

-- One step of the counter, which starts again from 0 after its last value.
pub le_value-increment :
    (bs : Bytes)
    → AllBytes bs
    → le_value (increment bs) ≡ (if le_value bs + 1 == 256 ^ length bs then 0 else le_value bs + 1)
unfolding increment le_value
le_value-increment [] h = refl
le_value-increment (b ∷ bs) h =
    ground (arith, le_value-increment bs h.1, le_value-lt bs h.1, pow-suc 256 (length bs))

pub le_value-inj :
    (xs ys : Bytes)
    → AllBytes xs
    → AllBytes ys
    → length xs ≡ length ys
    → le_value xs ≡ le_value ys
    → xs ≡ ys
unfolding le_value
le_value-inj [] [] hx hy l e = refl
le_value-inj [] (y ∷ ys) hx hy l e = absurd (omega arith)
le_value-inj (x ∷ xs) [] hx hy l e = absurd (omega arith)
le_value-inj (x ∷ xs) (y ∷ ys) hx hy l e =
    cc (le_value-inj xs ys hx.1 hy.1 (omega arith) (omega arith), head)
  where
    head : x ≡ y
    head = omega arith
