-- ===== src/Fd.antt =====
-- utils/unique_fd.cpp: the class UniqueFd, which owns a file descriptor. The objects that are alive stand in
-- a list, as the descriptors that they hold; what `close` was called with and what `release` gave away is kept.
pub mod Ownership
mod Tests
use pgw.Base.{ℕ, zero, suc, Bool, true, false, List, [], ◌∷◌, ◌==◌, if◌then◌else◌}

-- An `int`; -1 is `negsuc 0`.
pub data ℤ : Type 0 where
  pos : ℕ → ℤ
  negsuc : ℕ → ℤ

pub record Fds : Type 0 where
  pub objects : List ℤ
  pub closed : List ℤ
  pub released : List ℤ

-- `fd_` of the object at an index.
unfoldable pub get : ℕ → List ℤ → ℤ
get i [] = negsuc 0
get zero (x ∷ xs) = x
get (suc i) (x ∷ xs) = get i xs

abbrev pub put : ℕ → ℤ → List ℤ → List ℤ
put i y [] = []
put zero y (x ∷ xs) = y ∷ xs
put (suc i) y (x ∷ xs) = x ∷ put i y xs

abbrev pub drop_object : ℕ → List ℤ → List ℤ
drop_object i [] = []
drop_object zero (x ∷ xs) = xs
drop_object (suc i) (x ∷ xs) = x ∷ drop_object i xs

unfoldable pub construct : ℤ → Fds → Fds
construct fd s = record s { objects = fd ∷ s.objects }

abbrev pub close_owned : ℤ → List ℤ → List ℤ
close_owned (pos n) closed = pos n ∷ closed
close_owned (negsuc n) closed = closed

unfoldable pub destruct : ℕ → Fds → Fds
destruct i s = record s {
  objects = drop_object i s.objects;
  closed = close_owned (get i s.objects) s.closed;
}

unfoldable pub move_construct : ℕ → Fds → Fds
move_construct i s = record s { objects = get i s.objects ∷ put i (negsuc 0) s.objects }

-- A private member: `close` is called without a test.
unfoldable pub reset : ℕ → ℤ → Fds → Fds
reset i fd s = record s { objects = put i fd s.objects; closed = get i s.objects ∷ s.closed }

-- `objects[i] = std::move(objects[j])`: the argument of `reset` is read, and the other object emptied, before the call.
unfoldable pub move_assign : ℕ → ℕ → Fds → Fds
move_assign i j s =
    if i == j
    then s
    else reset i (get j s.objects) (record s { objects = put j (negsuc 0) s.objects })

unfoldable pub release : ℕ → Fds → Fds
release i s = record s {
  objects = put i (negsuc 0) s.objects;
  released = get i s.objects ∷ s.released;
}

-- The public members that change the object.
pub data Call : Type 0 where
  constructed : ℤ → Call
  destructed : ℕ → Call
  move_constructed : ℕ → Call
  move_assigned : ℕ → ℕ → Call
  was_released : ℕ → Call

unfoldable pub perform : Call → Fds → Fds
perform (constructed fd) s = construct fd s
perform (destructed i) s = destruct i s
perform (move_constructed i) s = move_construct i s
perform (move_assigned i j) s = move_assign i j s
perform (was_released i) s = release i s

unfoldable pub run : List Call → Fds → Fds
run [] s = s
run (c ∷ calls) s = run calls (perform c s)
