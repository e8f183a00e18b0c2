-- ===== src/Fd/Ownership.antt =====
-- utils/unique_fd.cpp: no descriptor is lost and none is closed twice.
use pgw.Base.{
  Bool-cases, inl, inr, ℕ, ◌+◌, ◌<◌, ◌≡◌, refl, arith, zero, suc, false, List, [], ◌∷◌, ◌==◌,
  if◌then◌else◌, length,
}
use pgw.Fd.{
  put, drop_object, close_owned, ℤ, pos, negsuc, Fds, get, construct, destruct, move_construct,
  move_assign, release, reset, Call, constructed, destructed, move_constructed, move_assigned,
  was_released, perform, run,
}

-- Whether a number is the descriptor `k`, and how often it stands in a list.
abbrev pub is_fd : ℕ → ℤ → ℕ
is_fd k (pos n) = if k == n then 1 else 0
is_fd k (negsuc n) = 0

abbrev pub times : ℕ → List ℤ → ℕ
times k [] = 0
times k (x ∷ xs) = is_fd k x + times k xs

-- How often a descriptor is held by an object, closed or given away.
abbrev pub accounted : ℕ → Fds → ℕ
accounted k s = times k s.objects + times k s.closed + times k s.released

-- How often a call hands the descriptor over.
abbrev pub handed : ℕ → Call → ℕ
handed k (constructed fd) = is_fd k fd
handed k (destructed i) = 0
handed k (move_constructed i) = 0
handed k (move_assigned i j) = 0
handed k (was_released i) = 0

abbrev pub all_handed : ℕ → List Call → ℕ
all_handed k [] = 0
all_handed k (c ∷ calls) = handed k c + all_handed k calls

-- The objects of a call exist.
abbrev pub IsAlive : Call → Fds → Type 0
IsAlive (constructed fd) s = Unit
IsAlive (destructed i) s = i < length s.objects
IsAlive (move_constructed i) s = i < length s.objects
IsAlive (move_assigned i j) s = (i < length s.objects) × (j < length s.objects)
IsAlive (was_released i) s = i < length s.objects

abbrev pub AreAlive : List Call → Fds → Type 0
AreAlive [] s = Unit
AreAlive (c ∷ calls) s = IsAlive c s × AreAlive calls (perform c s)

times-put :
    (k i : ℕ) (y : ℤ) (xs : List ℤ)
    → i < length xs
    → times k (put i y xs) + is_fd k (get i xs) ≡ times k xs + is_fd k y
unfolding get
times-put k i y [] h = omega (arith, h)
times-put k zero y (x ∷ xs) h = omega arith
times-put k (suc i) y (x ∷ xs) h = omega (arith, times-put k i y xs (omega (arith, h)))

times-drop_object :
    (k i : ℕ) (xs : List ℤ)
    → i < length xs
    → times k (drop_object i xs) + is_fd k (get i xs) ≡ times k xs
unfolding get
times-drop_object k i [] h = omega (arith, h)
times-drop_object k zero (x ∷ xs) h = omega arith
times-drop_object k (suc i) (x ∷ xs) h = omega (arith, times-drop_object k i xs (omega (arith, h)))

length-put : (i : ℕ) (y : ℤ) (xs : List ℤ) → length (put i y xs) ≡ length xs
length-put i y [] = refl
length-put zero y (x ∷ xs) = refl
length-put (suc i) y (x ∷ xs) = omega (arith, length-put i y xs)

get-put : (i j : ℕ) (y : ℤ) (xs : List ℤ) → (i == j) ≡ false → get i (put j y xs) ≡ get i xs
unfolding get
get-put i j y [] h = refl
get-put zero zero y (x ∷ xs) h = ground (arith, h)
get-put zero (suc j) y (x ∷ xs) h = refl
get-put (suc i) zero y (x ∷ xs) h = refl
get-put (suc i) (suc j) y (x ∷ xs) h = get-put i j y xs (ground (arith, h))

pub times-close_owned :
    (k : ℕ) (z : ℤ) (xs : List ℤ) → times k (close_owned z xs) ≡ is_fd k z + times k xs
times-close_owned k (pos n) xs = omega arith
times-close_owned k (negsuc n) xs = omega arith

move_assign-accounted :
    (k i j : ℕ) (s : Fds)
    → i < length s.objects
    → j < length s.objects
    → accounted k (move_assign i j s) ≡ accounted k s
unfolding move_assign reset
move_assign-accounted k i j s hi hj = elim (Bool-cases (i == j)) [
  | inl e ↦ ground (arith, e)
  | inr e ↦ ground (
    arith,
    e,
    get-put i j (negsuc 0) s.objects e,
    length-put j (negsuc 0) s.objects,
    times-put k j (negsuc 0) s.objects hj,
    times-put k i (get j s.objects) (put j (negsuc 0) s.objects)
        (omega (arith, length-put j (negsuc 0) s.objects, hi)),
  )
]

perform-accounted :
    (k : ℕ) (c : Call) (s : Fds)
    → IsAlive c s
    → accounted k (perform c s) ≡ accounted k s + handed k c
unfolding perform construct destruct move_construct release
perform-accounted k (constructed fd) s h = omega arith
perform-accounted k (destructed i) s h =
    omega (arith, times-drop_object k i s.objects h, times-close_owned k (get i s.objects) s.closed)
perform-accounted k (move_constructed i) s h = omega (arith, times-put k i (negsuc 0) s.objects h)
perform-accounted k (move_assigned i j) s h = omega (arith, move_assign-accounted k i j s h.0 h.1)
perform-accounted k (was_released i) s h = omega (arith, times-put k i (negsuc 0) s.objects h)

-- Whatever calls are made of objects that exist, each descriptor is held, closed or given away exactly as often as it was
-- handed to a constructor.
pub run-accounted :
    (k : ℕ) (calls : List Call) (s : Fds)
    → AreAlive calls s
    → accounted k (run calls s) ≡ accounted k s + all_handed k calls
unfolding run
run-accounted k [] s h = omega arith
run-accounted k (c ∷ calls) s h =
    omega (arith, perform-accounted k c s h.0, run-accounted k calls (perform c s) h.1)
