-- ===== src/App/Lifetimes.antt =====
-- src/pgw_server_app.cpp: who owns and who only refers to what `init_components` makes, through `std::shared_ptr` and
-- `std::unique_ptr`, until it returns or a constructor throws, and in the destructor of the application. A destructor is
-- taken to come back here; App/Shutdown is about whether it does.
use pgw.Base.{
  ℕ, ◌+◌, ◌-◌, ◌==◌, ◌≡◌, arith, Bool, true, false, not, ◌&&◌, Bool-cases, inl, inr, List, [], ◌∷◌,
  ◌++◌, if◌then◌else◌,
}

pub data Object : Type 0 where
  cdr_writer session_manager queue dispatcher udp http : Object

unfoldable pub same : Object → Object → Bool
same cdr_writer cdr_writer = true
same session_manager session_manager = true
same queue queue = true
same dispatcher dispatcher = true
same udp udp = true
same http http = true
same _ _ = false

-- The pointers that own each object, and the objects that were destroyed, in order.
pub record Heap : Type 0 where
  pub owners : Object → ℕ
  pub destroyed : List Object

abbrev pub empty : Heap
empty = record { owners = λ o. 0; destroyed = [] }

abbrev pub is_alive : Object → Heap → Bool
is_alive o h = not (h.owners o == 0)

-- `make_shared`, `make_unique` and a copy of a shared pointer.
unfoldable pub gain : Object → Heap → Heap
gain o h = record h { owners = λ p. if same o p then h.owners p + 1 else h.owners p }

-- A pointer goes, and with the last one the object; of a null pointer nothing goes.
unfoldable pub lose : Object → Heap → Heap
lose o h = if h.owners o == 0 then h else record {
  owners = λ p. if same o p then h.owners p - 1 else h.owners p;
  destroyed = if h.owners o == 1 then h.destroyed ++ o ∷ [] else h.destroyed;
}

-- The two members of other classes that are shared pointers (src/event_dispatcher.h:30, src/http_server.h:34).
abbrev pub shares_manager : Object → Bool
shares_manager dispatcher = true
shares_manager http = true
shares_manager _ = false

unfoldable pub make : Object → Heap → Heap
make o h = gain o (if shares_manager o then gain session_manager h else h)

-- The members of an object go after its destructor's body.
unfoldable pub release : Object → Heap → Heap
release o h = if shares_manager o && is_alive o h then lose session_manager (lose o h) else lose o h

-- References that own nothing: `queue_` of the dispatcher and of the UDP server, the callback of the manager, and the
-- callback of the UDP server, which goes through `dispatcher_`.
abbrev pub refers : Object → Object → Bool
refers dispatcher queue = true
refers udp queue = true
refers session_manager cdr_writer = true
refers udp dispatcher = true
refers _ _ = false

abbrev pub dangles : Object → Object → Heap → Bool
dangles o p h = refers o p && (is_alive o h && not (is_alive p h))

-- The members of the application go in the reverse of their order (src/pgw_server_app.h:33).
unfoldable pub destroy : Heap → Heap
destroy h =
    release cdr_writer (release session_manager (release udp (release http (release dispatcher h))))

pub data Result : Type 0 where
  built unwound : Heap → Result

-- The local pointer to the queue goes when the function is left, one way or the other.
unfoldable pub make_all : (Object → Bool) → List Object → Heap → Result
make_all fails [] h = built (release queue h)
make_all fails (o ∷ rest) h =
    let more = make_all fails rest (make o h) in
    if fails o then unwound (destroy (release queue h)) else more

-- `fails` says whose construction throws.
unfoldable pub init_components : (Object → Bool) → Result
init_components fails =
    make_all fails (cdr_writer ∷ session_manager ∷ queue ∷ dispatcher ∷ udp ∷ http ∷ []) empty

unfoldable pub times : Object → List Object → ℕ
times o [] = 0
times o (p ∷ rest) = (if same o p then 1 else 0) + times o rest

unfoldable pub go_well : (Object → Bool) → List Object → Bool
go_well fails [] = true
go_well fails (o ∷ rest) = not (fails o) && go_well fails rest

-- An object and those that are constructed before it.
abbrev pub up_to : Object → List Object
up_to cdr_writer = cdr_writer ∷ []
up_to session_manager = cdr_writer ∷ session_manager ∷ []
up_to queue = cdr_writer ∷ session_manager ∷ queue ∷ []
up_to dispatcher = cdr_writer ∷ session_manager ∷ queue ∷ dispatcher ∷ []
up_to udp = cdr_writer ∷ session_manager ∷ queue ∷ dispatcher ∷ udp ∷ []
up_to http = cdr_writer ∷ session_manager ∷ queue ∷ dispatcher ∷ udp ∷ http ∷ []

abbrev pub heap_of : Result → Heap
heap_of (built h) = h
heap_of (unwound h) = h

abbrev pub is_built : Result → Bool
is_built (built h) = true
is_built (unwound h) = false

-- The pointers to the parts of a whole application.
abbrev pub pointers : Object → ℕ
pointers session_manager = 3
pointers queue = 0
pointers _ = 1

module _ (fails : Object → Bool) (o p : Object) where
  -- `w` says whether all constructions go well, `made` whether those up to the object do.
  abbrev pub IsOwned : Bool → Bool → Result → Type 0
  IsOwned w made r =
      (is_built r ≡ w)
      × ((heap_of r).owners o ≡ (if w then pointers o else 0))
      × (dangles o p (heap_of r) ≡ (w && (refers o p && same p queue)))
      × (dangles udp dispatcher (release dispatcher (heap_of r)) ≡ w)
      × ((destroy (heap_of r)).owners o ≡ 0)
      × (times o (destroy (heap_of r)).destroyed ≡ (if made then 1 else 0))

  -- The statement below, by what fails first.
  abbrev Here : Type 0
  Here = IsOwned (go_well fails (up_to http)) (go_well fails (up_to o)) (init_components fails)

  Here-cdr_writer : fails cdr_writer ≡ true → Here
  unfolding init_components make_all make release gain lose destroy same times go_well
  Here-cdr_writer a = ground (arith, a)

  Here-session_manager : fails cdr_writer ≡ false → fails session_manager ≡ true → Here
  unfolding init_components make_all make release gain lose destroy same times go_well
  Here-session_manager a b = ground (arith, a, b)

  Here-queue : fails cdr_writer ≡ false → fails session_manager ≡ false → fails queue ≡ true → Here
  unfolding init_components make_all make release gain lose destroy same times go_well
  Here-queue a b c = ground (arith, a, b, c)

  Here-dispatcher :
      fails cdr_writer ≡ false
      → fails session_manager ≡ false
      → fails queue ≡ false
      → fails dispatcher ≡ true
      → Here
  unfolding init_components make_all make release gain lose destroy same times go_well
  Here-dispatcher a b c d = ground (arith, a, b, c, d)

  Here-udp :
      fails cdr_writer ≡ false
      → fails session_manager ≡ false
      → fails queue ≡ false
      → fails dispatcher ≡ false
      → fails udp ≡ true
      → Here
  unfolding init_components make_all make release gain lose destroy same times go_well
  Here-udp a b c d e = ground (arith, a, b, c, d, e)

  Here-http :
      fails cdr_writer ≡ false
      → fails session_manager ≡ false
      → fails queue ≡ false
      → fails dispatcher ≡ false
      → fails udp ≡ false
      → Here
  unfolding init_components make_all make release gain lose destroy same times go_well
  Here-http a b c d e = ground (arith, a, b, c, d, e)

  -- Whichever construction in `init_components` throws, if any: once what is left was destroyed, no pointer owns any of the
  -- objects, and each that was made has been destroyed once. If none throws, the references in the application are to objects
  -- that are alive, except those of the dispatcher and of the UDP server to the queue; and when its destruction has taken
  -- the dispatcher, with which it begins, the UDP server still refers to it.
  pub init_components-IsOwned :
      IsOwned (go_well fails (up_to http)) (go_well fails (up_to o)) (init_components fails)
  init_components-IsOwned = elim (Bool-cases (fails cdr_writer)) [
    | inl a ↦ Here-cdr_writer a
    | inr a ↦ elim (Bool-cases (fails session_manager)) [
      | inl b ↦ Here-session_manager a b
      | inr b ↦ elim (Bool-cases (fails queue)) [
        | inl c ↦ Here-queue a b c
        | inr c ↦ elim (Bool-cases (fails dispatcher)) [
          | inl d ↦ Here-dispatcher a b c d
          | inr d ↦ elim (Bool-cases (fails udp)) [
            | inl e ↦ Here-udp a b c d e
            | inr e ↦ Here-http a b c d e
          ]
        ]
      ]
    ]
  ]
