-- ===== src/Udp/Buffers.antt =====
-- src/udp_server.cpp: what of a datagram reaches the queue through the reused buffer.
use pgw.Base.{ℕ, suc, ◌≡◌, ◌≤◌, refl, arith, List, [], ◌∷◌, some, length, take, ap}
use pgw.Udp.{fill, received_length, counted, copy_range}

pub length-fill : (bytes buffer : List ℕ) → length (fill bytes buffer) ≡ length buffer
unfolding fill
length-fill [] buffer = refl
length-fill (b ∷ bytes) [] = refl
length-fill (b ∷ bytes) (old ∷ buffer) = ap suc (length-fill bytes buffer)

-- The event gets the datagram, cut at the buffer's length, and nothing of an earlier datagram.
pub take-fill :
    (bytes buffer : List ℕ)
    → take (received_length bytes buffer) (fill bytes buffer) ≡ take (length buffer) bytes
unfolding fill received_length
take-fill [] [] = refl
take-fill [] (old ∷ buffer) = refl
take-fill (b ∷ bytes) [] = refl
take-fill (b ∷ bytes) (old ∷ buffer) = ap (◌∷◌ b) (take-fill bytes buffer)

received_length-le : (bytes buffer : List ℕ) → received_length bytes buffer ≤ length buffer
unfolding received_length
received_length-le [] buffer = omega arith
received_length-le (b ∷ bytes) [] = omega arith
received_length-le (b ∷ bytes) (old ∷ buffer) = omega (arith, received_length-le bytes buffer)

-- What `recvfrom` counts for a datagram lies in the buffer.
pub copy_range-fill :
    (bytes buffer : List ℕ)
    → copy_range (counted (received_length bytes buffer)) (fill bytes buffer)
      ≡ some (take (length buffer) bytes)
unfolding copy_range
copy_range-fill bytes buffer =
    ground
      (arith, received_length-le bytes buffer, length-fill bytes buffer, take-fill bytes buffer)
