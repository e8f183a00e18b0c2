-- ===== src/App/Server/Verdicts/Blacklists.antt =====
-- The blacklist of the manager while the server runs.
use pgw.Base.{
  ℕ, ◌≡◌, refl, ◌∙◌, arith, true, false, List, [], Text, returns, terminates, member, ap, subst,
}
use pgw.Imsi.{Imsi, make, from_bcd}
use pgw.Imsi.Valid.{IsValid-dec, make-IsValid, make-not_IsValid}
use pgw.Sessions.State.{Manager, Instant, emit_event}
use pgw.Sessions.Requests.{is_imsi, check_blacklist, open_session}
use pgw.Sessions.Refinement.{is_imsi-IsValid}
use pgw.Sessions.Shutdown.{start_graceful_shutdown, pick, remove_picked}
use pgw.Sessions.Threads.{between, opening, begin_create, Action, turn, cleans, shuts, looks, act}
use pgw.Sessions.Locks.{reap-kept}
use pgw.App.Server.{checked, in_background}
use pgw.Base.{no_except}

made : (bytes : List ℕ) → (s : Text) × (from_bcd bytes ≡ no_except (make s))
unfolding from_bcd
made bytes = (_, refl)

-- What is decoded is valid.
from_bcd-IsValid :
    (bytes : List ℕ) (imsi : Imsi) → from_bcd bytes ≡ returns imsi → is_imsi imsi.digits ≡ true
from_bcd-IsValid bytes imsi h =
    let (s, e) = made bytes in
    elim (IsValid-dec s) [
      | yes v ↦
          let decoded : from_bcd bytes ≡ returns (record { digits = s }) =
            e ∙ ap no_except (make-IsValid s v) in
          let same : s ≡ imsi.digits = cc (decoded, h) in
          subst (λ t. is_imsi t ≡ true) same (is_imsi-IsValid s v)
      | no n ↦
          let ended : from_bcd bytes ≡ terminates = e ∙ ap no_except (make-not_IsValid s n) in
          cc (ended, h)
    ]

module _ (now : Instant) (imsi : Text) (m : Manager) where
  pub checked-blacklist : (checked now imsi m).0.blacklist ≡ m.blacklist
  unfolding begin_create check_blacklist emit_event
  checked-blacklist = ground arith

  pub open_session-blacklist : (open_session now imsi m).0.blacklist ≡ m.blacklist
  unfolding open_session emit_event
  open_session-blacklist = ground arith

-- What the check of a decoded IMSI tells of the blacklist.
pub checked-member :
    (now : Instant) (bytes : List ℕ) (imsi : Imsi) (m : Manager)
    → from_bcd bytes ≡ returns imsi
    → ((checked now imsi.digits m).1 ≡ between [] → member imsi.digits m.blacklist ≡ true)
      × ((checked now imsi.digits m).1 ≡ opening now imsi.digits []
          → member imsi.digits m.blacklist ≡ false)
unfolding begin_create check_blacklist
checked-member now bytes imsi m h =
    let ok = from_bcd-IsValid bytes imsi h in
    ((λ e. ground (arith, ok, e)), (λ e. ground (arith, ok, e)))

pub in_background-blacklist :
    (a : Action) (m : Manager) → (in_background a m).blacklist ≡ m.blacklist
unfolding act start_graceful_shutdown pick remove_picked emit_event
in_background-blacklist (turn i) m = refl
in_background-blacklist (cleans now expired) m = (reap-kept now expired m).0
in_background-blacklist shuts m = ground arith
in_background-blacklist (looks begin) m = ground arith
in_background-blacklist (Action.drops system imsi) m = ground arith
