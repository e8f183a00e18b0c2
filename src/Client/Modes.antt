-- ===== src/Client/Modes.antt =====
-- client/main.cpp: the single shot and the periodic mode of the client, and what its exit codes say. Reading the
-- configuration, `std::stoi` and the answers to each request are arguments.
use pgw.Base.{
  ℕ, ◌+◌, ◌%◌, ◌<◌, ◌≤◌, ◌^◌, ◌≡◌, ◌++◌, zero, suc, refl, ◌↔◌, length-append, All-append, arith,
  Bool, true, false, ◌||◌, List, [], ◌∷◌, Text, codes, Option, none, some, length, Outcome, returns,
  throws, terminates, ◌>>=◌, if◌then◌else◌, ltb, leb, ◌==◌, All,
}
use pgw.Client.{
  SendResult, success, send_failed, timeout, invalid_response, network_error, Reply, Answers,
  send_imsi_with_response,
}

-- An `int`.
pub data ℤ : Type 0 where
  pos : ℕ → ℤ
  negsuc : ℕ → ℤ

-- What the periodic mode counts. The times are those of the successes, each a `uint32_t`.
pub record Statistics : Type 0 where
  pub total : ℕ
  pub success : ℕ
  pub response_times : List ℕ

abbrev pub is_success : SendResult → Bool
is_success success = true
is_success send_failed = false
is_success timeout = false
is_success invalid_response = false
is_success network_error = false

-- One round of the loop.
unfoldable pub count_reply : Reply → Statistics → Statistics
count_reply r s =
    if is_success r.result
    then record {
      total = s.total + 1;
      success = s.success + 1;
      response_times = s.response_times ++ (r.response_time % 2 ^ 32 ∷ []);
    }
    else record s { total = s.total + 1 }

-- The loop, over the requests made until the signal comes.
unfoldable pub count_replies : Text → List Answers → Statistics → Statistics
count_replies imsi [] s = s
count_replies imsi (a ∷ rest) s =
    count_replies imsi rest (count_reply (send_imsi_with_response a imsi).1 s)

-- The exit code of a single shot.
unfoldable pub exit_code : SendResult → ℕ
exit_code success = 0
exit_code timeout = 2
exit_code send_failed = 1
exit_code invalid_response = 1
exit_code network_error = 1

-- How the process ends: the exit code, and what the periodic mode reports.
pub record Exit : Type 0 where
  pub code : ℕ
  pub report : Option Statistics

abbrev pub quit : ℕ → Exit
quit code = record { code = code; report = none }

-- `argv[n]`.
abbrev pub argument : ℕ → List Text → Text
argument n [] = []
argument zero (a ∷ argv) = a
argument (suc n) (a ∷ argv) = argument n argv

module _ (stoi : Text → Outcome ℤ) where
  -- The argument of the constructor of UdpClient.
  unfoldable pub chosen_timeout : ℕ → List Text → Outcome ℤ
  chosen_timeout configured argv =
      if leb 4 (length argv) then stoi (argument 3 argv) else returns (pos configured)

  abbrev periodic : ℤ → Text → List Answers → Outcome Exit
  periodic (negsuc n) imsi shots = throws (codes "Interval must be positive")
  periodic (pos zero) imsi shots = throws (codes "Interval must be positive")
  periodic (pos (suc n)) imsi shots = returns (record {
    code = 0;
    report =
        some (count_replies imsi shots (record { total = 0; success = 0; response_times = [] }));
  })

  -- The single shot, if the length of the command line asks for it, or else the periodic mode.
  abbrev chosen : Text → Bool → Answers → List Answers → Outcome ℤ → Outcome Exit
  chosen imsi true shot shots interval =
      returns (quit (exit_code (send_imsi_with_response shot imsi).1.result))
  chosen imsi false shot shots interval = interval >>= (λ i. periodic i imsi shots)

  -- The `try` block, with what comes of the configuration and of the constructor of UdpClient; `shot` is the
  -- request of a single shot, `shots` are those of the periodic mode.
  unfoldable pub attempt :
      Outcome ℕ → (ℤ → Outcome (Unit {0})) → Answers → List Answers → List Text → Outcome Exit
  attempt load connect shot shots argv = do
    configured ← load
    limit ← chosen_timeout configured argv
    made ← connect limit
    chosen (argument 1 argv) ((length argv == 2) || (length argv == 4)) shot shots
        (stoi (argument 2 argv))

  abbrev reported : Outcome Exit → Outcome Exit
  reported (returns e) = returns e
  reported (throws what) = returns (quit 1)
  reported terminates = terminates

  unfoldable pub main :
      Outcome ℕ → (ℤ → Outcome (Unit {0})) → Answers → List Answers → List Text → Outcome Exit
  main load connect shot shots argv =
      if ltb (length argv) 2
      then returns (quit 1)
      else reported (attempt load connect shot shots argv)

-- The fourth word of the command line makes it a single shot: the interval is not read.
pub main-single_shot :
    (stoi : Text → Outcome ℤ) (load : Outcome ℕ) (connect : ℤ → Outcome (Unit {0})) (shot : Answers)
    → (shots others : List Answers) → (name imsi interval other limit : Text)
    → main stoi load connect shot shots (name ∷ imsi ∷ interval ∷ limit ∷ [])
      ≡ main stoi load connect shot others (name ∷ imsi ∷ other ∷ limit ∷ [])
unfolding main attempt chosen_timeout
main-single_shot stoi load connect shot shots others name imsi interval other limit = refl

-- The exit code tells a success from a timeout from all else.
pub exit_code_lem :
    (r : SendResult) → ((exit_code r ≡ 0) ↔ (r ≡ success)) × ((exit_code r ≡ 2) ↔ (r ≡ timeout))
unfolding exit_code
exit_code_lem r = ground arith

abbrev pub IsCounted : Statistics → Type 0
IsCounted s =
    (length s.response_times ≡ s.success)
    × (s.success ≤ s.total)
    × All (λ t. t < 2 ^ 32) s.response_times

count_reply-IsCounted :
    (r : Reply) (s : Statistics)
    → IsCounted s
    → IsCounted (count_reply r s)
      × ((count_reply r s).total ≡ s.total + 1)
      × ((count_reply r s).success ≡ s.success + (if is_success r.result then 1 else 0))
unfolding count_reply
count_reply-IsCounted r s h = ground (
  arith,
  length-append s.response_times (r.response_time % 2 ^ 32 ∷ []),
  All-append (λ t. t < 2 ^ 32) s.response_times (r.response_time % 2 ^ 32 ∷ []) h.2
      (omega arith, tt),
)

-- How many of the requests succeed, each on its own.
abbrev pub successes : Text → List Answers → ℕ
successes imsi [] = 0
successes imsi (a ∷ rest) =
    (if is_success (send_imsi_with_response a imsi).1.result then 1 else 0) + successes imsi rest

-- The report of the periodic mode counts every request and every success, and has one time of 32 bits for each success.
count_replies-IsCounted :
    (imsi : Text) (shots : List Answers) (s : Statistics)
    → IsCounted s
    → IsCounted (count_replies imsi shots s)
      × ((count_replies imsi shots s).total ≡ s.total + length shots)
      × ((count_replies imsi shots s).success ≡ s.success + successes imsi shots)
unfolding count_replies
count_replies-IsCounted imsi [] s h = (h, omega arith, omega arith)
count_replies-IsCounted imsi (a ∷ rest) s h =
    let r = (send_imsi_with_response a imsi).1 in
    let step = count_reply-IsCounted r s h in
    let later = count_replies-IsCounted imsi rest (count_reply r s) step.0 in
    (later.0, omega (arith, later.1, step.1), omega (arith, later.2, step.2))
