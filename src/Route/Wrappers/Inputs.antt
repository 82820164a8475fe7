-- ===== src/Route/Wrappers/Inputs.antt =====
-- route/ws_wrapper.go: which input the terminal gets.
use container_web_tty.Base.{
  length, Bytes, ℕ, zero, suc, ◌+◌, ◌≤◌, ◌<◌, min, ◌≡◌, refl, ap, List, [], ◌∷◌, map, arith,
}
use container_web_tty.Route.Wrappers.{Message, text_message, other_message, read, read_all}

-- The text messages, in their order.
unfoldable pub texts : List Message → List Bytes
texts [] = []
texts (text_message b ∷ ms) = b ∷ texts ms
texts (other_message b ∷ ms) = texts ms

-- How many bytes there are.
unfoldable pub total : List Bytes → ℕ
total [] = 0
total (b ∷ bs) = length b + total bs

module _ (first : ℕ → Bytes → Bytes) (n : ℕ) where
  -- Up to the error of the connection the reads give the first piece of every text message, in their
  -- order and nothing of other messages; as many reads as there are messages are enough for it.
  pub read_all-texts :
      (fuel : ℕ) (ms : List Message)
      → length ms ≤ fuel
      → read_all first fuel n ms ≡ map (first n) (texts ms)
  unfolding read_all texts read
  read_all-texts zero [] l = refl
  read_all-texts zero (m ∷ ms) l = absurd (omega arith)
  read_all-texts (suc fuel) [] l = refl
  read_all-texts (suc fuel) (text_message b ∷ ms) l =
      ap (◌∷◌ (first n b)) (read_all-texts fuel ms (omega arith))
  read_all-texts (suc fuel) (other_message b ∷ ms) l = read_all-texts (suc fuel) ms (omega arith)

  total-first :
      (bs : List Bytes)
      → ((c : Bytes) → length (first n c) ≤ min n (length c))
      → total (map (first n) bs) ≤ total bs
  unfolding total
  total-first [] h = omega arith
  total-first (b ∷ bs) h = omega (arith, total-first bs h, h b)

  -- Of a message that is longer than the buffer the rest is lost: where the first read of a message
  -- gives no more than the buffer and the message hold, the terminal gets less than was sent.
  pub read_all-loses :
      (ms : List Message) (b : Bytes)
      → ((c : Bytes) → length (first n c) ≤ min n (length c))
      → n < length b
      → total (read_all first (suc (length ms)) n (text_message b ∷ ms))
        < total (texts (text_message b ∷ ms))
  unfolding texts total
  read_all-loses ms b short long =
      rw (read_all-texts (suc (length ms)) (text_message b ∷ ms) (omega arith))
        (omega (arith, total-first (texts ms) short, short b))
