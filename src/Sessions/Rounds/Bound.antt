-- ===== src/Sessions/Rounds/Bound.antt =====
-- How many rounds the graceful shutdown can make.
use pgw.Base.{
  ℕ, ◌+◌, ◌≤◌, ◌≡◌, ap, ◌∙◌, arith, false, [], some, Text, length, Option-cases, inl, inr, find,
  erase, length-erase, is_empty,
}
use pgw.Sessions.State.{Manager, Session, SessionAction}
use pgw.Sessions.Shutdown.{Begin, pick, remove_picked}
use pgw.Sessions.Invariant.{Inv, remove_picked-Inv, pick-Inv}
use pgw.Sessions.Drain.{IsBegin}
use pgw.Sessions.Rounds.{Rounds, begun, removes_one, skips, Shutting, goes_on, finds_none}
use pgw.Sessions.Rounds.Sizes.{with_key, Others-Grows, emit_event-sessions}

-- The key may have gone before the thread comes to remove it; then it was another thread that made the table smaller.
remove_picked-with_key :
    (system : ℕ) (imsi : Text) (m : Manager)
    → length (remove_picked system imsi m).sessions + 1 ≡ with_key imsi m.sessions
unfolding remove_picked
remove_picked-with_key system imsi m = elim (Option-cases (find imsi m.sessions)) [
  | inl h ↦ ground (arith, h)
  | inr (s, h) ↦ ground (
    arith,
    h,
    length-erase imsi m.sessions s h,
    emit_event-sessions system imsi SessionAction.graceful_shutdown
        (record m { sessions = erase imsi m.sessions }),
  )
]

module _ (begin : Begin) (law : IsBegin begin) where
  picked-there :
      (imsi : Text) (m : Manager)
      → (pick begin m).1 ≡ some imsi
      → ((pick begin m).0 ≡ m) × ((s : Session) × (find imsi m.sessions ≡ some s))
  unfolding pick
  picked-there imsi m h = elim (Option-cases (begin m.sessions)) [
    | inl e ↦ absurd (ground (arith, e, h))
    | inr (k, e) ↦
        let same : k ≡ imsi = ground (arith, e, h) in
        let there = law.present m.sessions imsi (ground (arith, e, same)) in
        elim (Option-cases (find imsi m.sessions)) [
          | inl x ↦ absurd (there x)
          | inr f ↦ (ground (arith, e), f)
        ]
  ]

  with_key-present :
      (imsi : Text) (m n : Manager)
      → n ≡ m
      → (s : Session) × (find imsi m.sessions ≡ some s)
      → with_key imsi n.sessions ≡ length m.sessions
  with_key-present imsi m n same (s, there) =
      let all : with_key imsi m.sessions ≡ length m.sessions = ground (arith, there) in
      ap (λ x. with_key imsi x.sessions) same ∙ all

  picked-nonempty :
      (imsi : Text) (m : Manager) → Inv m → (pick begin m).1 ≡ some imsi → is_empty imsi ≡ false
  unfolding is_empty
  picked-nonempty imsi m w h =
      let (same, (s, there)) = picked-there imsi m h in
      let nonempty = (w.table.named imsi s there).1.nonempty in ground (arith, nonempty)

  -- Before the end: one session less for each round.
  Rounds-bound :
      {s m : Manager} {j c : ℕ}
      → Inv s
      → Rounds begin s j c m
      → Inv m × (j + length m.sessions ≤ length s.sessions + c)
  Rounds-bound w (begun others) =
      let (v, grown) = Others-Grows [] others w in (v, omega (arith, grown.0))
  Rounds-bound w
        (removes_one {j} {c} {a} {b} {d} {l} {m} {n} {o} imsi system r on first chosen full before
          later) =
      let (u, so_far) = Rounds-bound w r in
      let (v, at_first) = Others-Grows imsi first u in
      let (same, there) = picked-there imsi m chosen in
      let picked : Inv (pick begin m).0 = pick-Inv begin m v in
      let (x, between) = Others-Grows imsi before picked in
      let one_less = remove_picked-with_key system imsi n in
      let (y, after) = Others-Grows imsi later (remove_picked-Inv system imsi n x) in
      let whole : with_key imsi (pick begin m).0.sessions ≡ length m.sessions =
        with_key-present imsi m (pick begin m).0 same there in
      (y, omega (arith, so_far, at_first.0, whole, between.1, one_less, after.0))
  Rounds-bound w (skips {m = m} imsi r on first chosen bare later) =
      let (v, grown) = Others-Grows imsi first (Rounds-bound w r).0 in
      absurd (ground (arith, bare, picked-nonempty imsi m v chosen))

  pick-kept : (m : Manager) → (pick begin m).0.sessions ≡ m.sessions
  unfolding pick
  pick-kept m = ground arith

  -- A thread that shuts down a table makes, whatever the sections of other threads between its own and between its test of
  -- the flags and its lock, at most as many rounds as there were sessions at its start and others have opened since, less
  -- the sessions that are there now, and one round more, in which it may find no session.
  pub Shutting-bound :
      {s m : Manager} {j c : ℕ}
      → Inv s
      → Shutting begin s j c m
      → Inv m × (j + length m.sessions ≤ length s.sessions + c + 1)
  Shutting-bound w (goes_on r) = let (v, h) = Rounds-bound w r in (v, omega (arith, h))
  Shutting-bound w (finds_none {m = m} r on first none_left) =
      let (u, so_far) = Rounds-bound w r in
      let (v, at_first) = Others-Grows [] first u in
      let same : length (pick begin m).0.sessions ≡ length m.sessions = ap length (pick-kept m) in
      (pick-Inv begin m v, omega (arith, so_far, at_first.0, same))
