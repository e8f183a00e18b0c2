-- ===== src/App/Server/Completion/Readable.antt =====
-- Events whose packets code an IMSI, in the queue and in the hands of workers.
use pgw.Base.{Bool-cases, inl, inr, ℕ, ◌≡◌, subst, List, [], ◌∷◌, returns, map, All, All-set}
use pgw.Imsi.{Imsi, from_bcd}
use pgw.Events.{Event, udp, http}
use pgw.Dispatcher.Workers.{
  Pc, polling, handling, locking, testing, failed, passed, asleep, finished, Pool, move, woken,
  stop_and_notify, Step, IsIdle, leaves, takes, misses, handles, locks, holds, fails, blocks,
  clears, enqueues, announces, notifies, notifies_nobody, stops,
}

abbrev pub IsReadable : Event → Type 0
IsReadable (udp event) = (imsi : Imsi) × (from_bcd event.bytes ≡ returns imsi)
IsReadable (http event) = Unit

abbrev pub IsReadableBy : Pc → Type 0
IsReadableBy (handling e) = IsReadable e
IsReadableBy _ = Unit

pub record AreReadable (p : Pool) : Type 0 where
  pub queued : All IsReadable p.queue
  pub held : All IsReadableBy p.workers

pub move-AreReadable :
    (p : Pool) (i : ℕ) (c : Pc) → IsReadableBy c → AreReadable p → AreReadable (move p i c)
move-AreReadable p i c h v = record {
  queued = v.queued;
  held = All-set IsReadableBy p.workers i c v.held h;
}

woken-held : (cs : List Pc) → All IsReadableBy cs → All IsReadableBy (map woken cs)
woken-held [] h = tt
woken-held (asleep ∷ cs) h = (tt, woken-held cs h.1)
woken-held (handling e ∷ cs) h = (h.0, woken-held cs h.1)
woken-held (polling ∷ cs) h = (tt, woken-held cs h.1)
woken-held (locking ∷ cs) h = (tt, woken-held cs h.1)
woken-held (testing ∷ cs) h = (tt, woken-held cs h.1)
woken-held (failed ∷ cs) h = (tt, woken-held cs h.1)
woken-held (passed ∷ cs) h = (tt, woken-held cs h.1)
woken-held (finished ∷ cs) h = (tt, woken-held cs h.1)

pub Step-AreReadable : {p q : Pool} (step : Step p q) → IsIdle step → AreReadable p → AreReadable q
unfolding stop_and_notify
Step-AreReadable (leaves p i a s) h v = move-AreReadable p i finished tt v
Step-AreReadable (takes p i e rest a s q) h v =
    let all = subst (All IsReadable) q v.queued in
    record { queued = all.1; held = All-set IsReadableBy p.workers i (handling e) v.held all.0 }
Step-AreReadable (misses p i a s q) h v = move-AreReadable p i locking tt v
Step-AreReadable (handles p i e a) h v = absurd h
Step-AreReadable (locks p i a l) h v = record {
  queued = v.queued;
  held = All-set IsReadableBy p.workers i testing v.held tt;
}
Step-AreReadable (holds p i a x) h v = move-AreReadable p i passed tt v
Step-AreReadable (fails p i a x) h v = move-AreReadable p i failed tt v
Step-AreReadable (blocks p i a) h v = record {
  queued = v.queued;
  held = All-set IsReadableBy p.workers i asleep v.held tt;
}
Step-AreReadable (clears p i a) h v = record {
  queued = v.queued;
  held = All-set IsReadableBy p.workers i polling v.held tt;
}
Step-AreReadable (enqueues p e) h v = absurd h
Step-AreReadable (announces p) h v = record { queued = v.queued; held = v.held }
Step-AreReadable (notifies p i a) h v = move-AreReadable p i locking tt v
Step-AreReadable (notifies_nobody p n) h v = v
Step-AreReadable (stops p) h v = elim (Bool-cases p.stop) [
  | inl e ↦ rw (e, stop_and_notify) (record { queued = v.queued; held = v.held })
  | inr e ↦
      rw (e, stop_and_notify) (record { queued = v.queued; held = woken-held p.workers v.held })
]
