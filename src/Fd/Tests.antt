-- ===== src/Fd/Tests.antt =====
-- utils/unique_fd.cpp: the theorem at an input.
use pgw.Base.{◌+◌, ◌≡◌, refl, arith, List, [], ◌∷◌}
use pgw.Fd.{
  get, pos, Fds, Call, constructed, destructed, move_constructed, move_assigned, was_released,
  perform, run, construct, move_construct, move_assign, reset, release, destruct,
}
use pgw.Fd.Ownership.{accounted, all_handed, AreAlive, run-accounted}

abbrev nothing : Fds
nothing = record { objects = []; closed = []; released = [] }

-- Two descriptors; the second is moved over the first, which is closed, then out again and given away.
abbrev calls : List Call
calls =
    constructed (pos 4)
    ∷ constructed (pos 3)
    ∷ move_assigned 0 1
    ∷ move_constructed 0
    ∷ was_released 0
    ∷ destructed 1
    ∷ []

calls-alive : AreAlive calls nothing
unfolding perform construct move_assign reset move_construct release
calls-alive = omega arith

run-accounted_example : accounted 4 (run calls nothing) ≡ accounted 4 nothing + all_handed 4 calls
run-accounted_example = run-accounted 4 calls nothing calls-alive

closed_once : (run calls nothing).closed ≡ pos 3 ∷ []
unfolding run perform construct move_assign reset move_construct release destruct get
closed_once = refl
