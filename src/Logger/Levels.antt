-- ===== src/Logger/Levels.antt =====
-- utils/logger_config.cpp: the levels of loggers against those of their sinks.
use pgw.Base.{
  ℕ, zero, suc, ◌<◌, ◌≤◌, ◌≡◌, refl, min, Bool, true, false, inl, inr, List, [], ◌∷◌, ◌++◌, All,
  Text, Option, none, some, Option-cases, find, insert, find-insert, find-erase, find-none_iff,
  keys-insert_present, count-keys-insert, count-keys-erase, count, keys, ◌∙◌, length, length-append,
  get_or, set, length-set, arith,
}
use pgw.Logger.{Level, Logger, Logging, register_file_sink, locked, looked_up, make_sink, attach}

-- The logger's sinks are there and let pass what it does.
pub record IsHeard (console : Level) (sinks : List Level) (logger : Logger) : Type 0 where
  pub there : logger.sink < length sinks
  pub file : get_or sinks logger.sink 0 ≤ logger.level
  pub screen : console ≤ logger.level

abbrev pub AreHeard : Logging → Type 0
AreHeard l = All (IsHeard l.console l.sinks) l.loggers

get_or-set-le :
    (xs : List ℕ) (i j v : ℕ) → get_or (set xs i (min (get_or xs i 0) v)) j 0 ≤ get_or xs j 0
get_or-set-le [] i j v = omega arith
get_or-set-le (x ∷ xs) zero zero v = omega arith
get_or-set-le (x ∷ xs) zero (suc j) v = omega arith
get_or-set-le (x ∷ xs) (suc i) zero v = omega arith
get_or-set-le (x ∷ xs) (suc i) (suc j) v = get_or-set-le xs i j v

get_or-set_same : (xs : List ℕ) (i v : ℕ) → i < length xs → get_or (set xs i v) i 0 ≡ v
get_or-set_same [] i v h = absurd (omega (arith, h))
get_or-set_same (x ∷ xs) zero v h = refl
get_or-set_same (x ∷ xs) (suc i) v h = get_or-set_same xs i v (omega (arith, h))

get_or-append : (xs ys : List ℕ) (i : ℕ) → i < length xs → get_or (xs ++ ys) i 0 ≡ get_or xs i 0
get_or-append [] ys i h = absurd (omega (arith, h))
get_or-append (x ∷ xs) ys zero h = refl
get_or-append (x ∷ xs) ys (suc i) h = get_or-append xs ys i (omega (arith, h))

-- Lower levels, and more sinks, keep every logger heard.
weaken :
    (console later : Level) (sinks more : List Level) (loggers : List Logger)
    → later ≤ console
    → ((i : ℕ) → i < length sinks → (i < length more) × (get_or more i 0 ≤ get_or sinks i 0))
    → All (IsHeard console sinks) loggers
    → All (IsHeard later more) loggers
weaken console later sinks more [] c lower h = tt
weaken console later sinks more (l ∷ ls) c lower h =
    let (there, less) = lower l.sink h.0.there in
    (
      record {
        there = there;
        file = omega (arith, less, h.0.file);
        screen = omega (arith, c, h.0.screen);
      },
      weaken console later sinks more ls c lower h.1,
    )

-- Each entry of the registry is the number of a sink.
abbrev pub IsRegistered : Logging → Type 0
IsRegistered l = (file : Text) (i : ℕ) → find file l.registry ≡ some i → i < length l.sinks

make_sink-AreHeard :
    (level : Level) (file : Text) (l : Logging) → AreHeard l → AreHeard (make_sink level file l).0
unfolding make_sink register_file_sink
make_sink-AreHeard level file l h =
    weaken l.console l.console l.sinks (l.sinks ++ level ∷ []) l.loggers (omega arith)
      (λ i k. (
        omega (arith, k, length-append l.sinks (level ∷ [])),
        omega (arith, get_or-append l.sinks (level ∷ []) i k),
      ))
      h

pub attach-AreHeard :
    (level : Level) (l : Logging) (sink : ℕ) → AreHeard l → AreHeard (attach level l sink)
unfolding attach
attach-AreHeard level l sink h =
    weaken l.console (min l.console level) l.sinks
      (set l.sinks sink (min (get_or l.sinks sink 0) level)) l.loggers (omega arith)
      (λ i q. (
        omega (arith, length-set l.sinks sink (min (get_or l.sinks sink 0) level), q),
        get_or-set-le l.sinks sink i level,
      ))
      h

-- What a logger needs to be heard when it is added to those of a state.
abbrev pub IsHeardIn : Logging → Logger → Type 0
IsHeardIn l = IsHeard l.console l.sinks

pub attach-IsHeardIn :
    (name : Text) (level : Level) (l : Logging) (sink : ℕ)
    → sink < length l.sinks
    → IsHeardIn (attach level l sink) (record { name = name; level = level; sink = sink })
unfolding attach
attach-IsHeardIn name level l sink k =
    let lowered = min (get_or l.sinks sink 0) level in
    record {
      there = omega (arith, length-set l.sinks sink lowered, k);
      file = omega (arith, get_or-set_same l.sinks sink lowered k);
      screen = omega arith;
    }

-- Both at once.
pub record IsSound (l : Logging) : Type 0 where
  pub heard : AreHeard l
  pub registered : IsRegistered l
  pub distinct : (k : Text) → count k (keys l.registry) ≤ 1

count-keys-insert-le :
    (file : Text) (sink : ℕ) (t : List (Text × ℕ)) (k : Text)
    → ((j : Text) → count j (keys t) ≤ 1)
    → count k (keys (insert file sink t)) ≤ 1
count-keys-insert-le file sink t k d = elim (Option-cases (find file t)) [
  | inl h ↦ ground (arith, count-keys-insert file k sink t h, (find-none_iff file t).0 h, d k)
  | inr (w, h) ↦ rw (keys-insert_present file sink w t h) (d k)
]

pub make_sink-IsSound :
    (level : Level) (file : Text) (l : Logging)
    → IsSound l
    → IsSound (make_sink level file l).0
      × ((make_sink level file l).1 < length (make_sink level file l).0.sinks)
unfolding make_sink register_file_sink
make_sink-IsSound level file l v = (
  record {
    heard = make_sink-AreHeard level file l v.heard;
    distinct = λ k. count-keys-insert-le file (length l.sinks) l.registry k v.distinct;
    registered = λ f i e. ground (
      arith,
      e,
      find-insert file f (length l.sinks) l.registry,
      v.registered f i,
      length-append l.sinks (level ∷ []),
    );
  },
  omega (arith, length-append l.sinks (level ∷ [])),
)

-- A look-up that is sound and whose sink, if any, is there.
abbrev pub IsFound : Logging × Option ℕ → Type 0
IsFound r = IsSound r.0 × ((i : ℕ) → r.1 ≡ some i → i < length r.0.sinks)

locked-IsFound :
    (file : Text) (l : Logging) (sink : ℕ) (b : Bool)
    → IsSound l
    → find file l.registry ≡ some sink
    → IsFound (locked file l sink b)
locked-IsFound file l sink true v e = (v, (λ i q. v.registered file i (e ∙ q)))
locked-IsFound file l sink false v e = (
  record {
    heard = v.heard;
    distinct = λ k. omega (arith, count-keys-erase file k l.registry sink e, v.distinct k);
    registered = λ f j q.
        ground (arith, q, find-erase file f l.registry (v.distinct file), v.registered f j);
  },
  (λ i q. cc q),
)

pub looked_up-IsFound :
    (alive : ℕ → Bool) (file : Text) (l : Logging) (found : Option ℕ)
    → IsSound l
    → find file l.registry ≡ found
    → IsFound (looked_up alive file l found)
looked_up-IsFound alive file l none v e = (v, (λ i q. cc q))
looked_up-IsFound alive file l (some sink) v e = locked-IsFound file l sink (alive sink) v e
