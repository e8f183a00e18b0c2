-- ===== src/Udp/Setup.antt =====
-- src/udp_server.h and src/udp_server.cpp: the constructor of UdpServer, its two descriptors and the destructor that the
-- compiler makes. The port is in the answers of `bind`; SO_REUSEPORT is only logged.
use pgw.Base.{
  ℕ, ◌+◌, ◌≡◌, refl, sym, subst, inl, inr, ◌⊎◌, ◌&&◌, arith, Bool, true, false, ◌∷◌, Text, codes,
  Outcome, returns, throws, terminates, ◌>>=◌, if◌then◌else◌,
}
use pgw.Fd
use pgw.Fd.{ℤ, pos, negsuc, Fds, close_owned}
use pgw.Fd.Ownership.{is_fd, times, times-close_owned}

-- What the system calls answer: `socket` and `epoll_create1` a descriptor or -1, the others whether they went well.
pub record Answers : Type 0 where
  pub server_fd : ℤ
  pub epoll_fd : ℤ
  pub reuses_address : Bool
  pub flags_read : Bool
  pub flags_set : Bool
  pub bound : Bool
  pub added : Bool

abbrev pub is_open : ℤ → Bool
is_open (pos n) = true
is_open (negsuc n) = false

abbrev pub require : Bool → Text → Outcome (Unit {0})
require true what = returns tt
require false what = throws what

-- The body of the constructor.
unfoldable pub set_up : Answers → Outcome (Unit {0})
set_up a = do
  u ← require (is_open a.server_fd) (codes "no socket can't be created")
  u ← require a.reuses_address (codes "Error setting options")
  u ← require a.flags_read (codes "Failed to get socket flgas:")
  u ← require a.flags_set (codes "Failed to set O_NONBLOCK: ")
  u ← require a.bound (codes "Error socket binding")
  u ← require (is_open a.epoll_fd) (codes "Erroe creating epoll")
  require a.added (codes "Error adding UdpServer socket to epoll")

-- The members are made in the order in which they are declared: the newest object stands first in the list.
abbrev pub with_members : Answers → Fds → Fds
with_members a s = Fd.construct a.epoll_fd (Fd.construct a.server_fd s)

-- An exception that leaves the body destroys the members.
abbrev pub unwound : Outcome (Unit {0}) → Fds → Fds
unwound (returns u) s = s
unwound (throws what) s = Fd.destruct 0 (Fd.destruct 0 s)
unwound terminates s = s

unfoldable pub construct : Answers → Fds → Outcome (Unit {0}) × Fds
construct a s = (set_up a, unwound (set_up a) (with_members a s))

-- The destructor: the descriptors, then `io_thread_`, which `start` made joinable and nothing ever joins.
unfoldable pub destroy : Bool → Fds → Outcome Fds
destroy started s = if started then terminates else returns (Fd.destruct 0 (Fd.destruct 0 s))

-- The server has its descriptors, open ones, and nothing was closed.
abbrev pub IsSetUp : Answers → Fds → Fds → Type 0
IsSetUp a s t =
    ((is_open a.server_fd ≡ true) × (is_open a.epoll_fd ≡ true))
    × (t.objects ≡ a.epoll_fd ∷ a.server_fd ∷ s.objects)
    × (t.closed ≡ s.closed)

-- No object is left, and what was opened was closed, once.
abbrev pub IsUndone : Answers → Fds → Fds → Type 0
IsUndone a s t =
    (t.objects ≡ s.objects)
    × ((k : ℕ) → times k t.closed ≡ times k s.closed + is_fd k a.server_fd + is_fd k a.epoll_fd)

-- Every call went well.
abbrev pub all_well : Answers → Bool
all_well a =
    is_open a.server_fd
    && (a.reuses_address
        && (a.flags_read && (a.flags_set && (a.bound && (is_open a.epoll_fd && a.added)))))

-- The outcome of a chain of checks: it returns if all hold and throws otherwise.
abbrev Answered : Bool → Outcome (Unit {0}) → Type 0
Answered b o = ((b ≡ true) × (o ≡ returns tt)) ⊎ ((b ≡ false) × (what : Text) × (o ≡ throws what))

require-Answered : (b : Bool) (what : Text) → Answered b (require b what)
require-Answered true what = inl (refl, refl)
require-Answered false what = inr (refl, what, refl)

require_first :
    (b : Bool) (what : Text) (rest : Bool) (o : Outcome (Unit {0}))
    → Answered rest o
    → Answered (b && rest) (require b what >>= (λ u. o))
require_first true what rest o h = h
require_first false what rest o h = inr (refl, what, refl)

set_up-Answered : (a : Answers) → Answered (all_well a) (set_up a)
unfolding set_up
set_up-Answered a = require_first (is_open a.server_fd) _ _ _ (
    require_first a.reuses_address _ _ _ (
      require_first a.flags_read _ _ _ (
        require_first a.flags_set _ _ _ (
          require_first a.bound _ _ _ (
            require_first (is_open a.epoll_fd) _ _ _
              (require-Answered a.added (codes "Error adding UdpServer socket to epoll")))))))

well_open :
    (a : Answers) → (all_well a ≡ true) → (is_open a.server_fd ≡ true) × (is_open a.epoll_fd ≡ true)
well_open a w = (ground (arith, w), ground (arith, w))

undone : (a : Answers) (s : Fds) → IsUndone a s (Fd.destruct 0 (Fd.destruct 0 (with_members a s)))
unfolding Fd.destruct Fd.construct Fd.get
undone a s = (
  refl,
  λ k. omega (
    arith,
    times-close_owned k a.epoll_fd s.closed,
    times-close_owned k a.server_fd (close_owned a.epoll_fd s.closed),
  ),
)

-- If every call goes well the constructor returns with both descriptors open and owned; if any fails it throws, and
-- what was opened is closed, once, and no object is left.
pub construct_lem :
    (a : Answers) (s : Fds)
    → ((all_well a ≡ true) × ((construct a s).0 ≡ returns tt) × IsSetUp a s (construct a s).1)
      ⊎ ((all_well a ≡ false)
          × (what : Text) × ((construct a s).0 ≡ throws what)
          × IsUndone a s (construct a s).1)
unfolding construct Fd.construct
construct_lem a s = elim (set_up-Answered a) [
  | inl (w, e) ↦ inl (
    w,
    e,
    subst (λ o. IsSetUp a s (unwound o (with_members a s))) (sym e) (well_open a w, refl, refl),
  )
  | inr (w, what, e) ↦
      inr
        (w, what, e, subst (λ o. IsUndone a s (unwound o (with_members a s))) (sym e) (undone a s))
]
