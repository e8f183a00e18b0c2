-- ===== src/Client/Setup.antt =====
-- client/udp_client.cpp: the constructor and the destructor of UdpClient, and the descriptor that they own.
use pgw.Base.{terminates, ◌+◌, ℕ, Bool, codes, if◌then◌else◌, Outcome, returns, throws, ◌≡◌, arith}

-- The answers of `socket`, `inet_pton` and the two calls of `fcntl`: whether each went well.
pub record Setup : Type 0 where
  pub socket_made : Bool
  pub address_parsed : Bool
  pub flags_read : Bool
  pub flags_set : Bool

-- The descriptors that the process has open.
pub record Process : Type 0 where
  pub opened : ℕ
  pub closed : ℕ

abbrev close_socket : Process → Process
close_socket p = record p { closed = p.closed + 1 }

-- Whether the constructor returned, and the process after it.
unfoldable pub construct : Setup → Process → Outcome (Unit {0}) × Process
construct s p =
    if s.socket_made
    then (let q : Process = record p { opened = p.opened + 1 } in
        if s.address_parsed
        then if s.flags_read
          then if s.flags_set
            then (returns tt, q)
            else (throws (codes "failed to set socket non-blocking"), close_socket q)
          else (throws (codes "failed to get socket flags"), close_socket q)
        else (throws (codes "invalid server IP address"), close_socket q))
    else (throws (codes "socket creation failed"), p)

-- The destructor of a client whose constructor returned.
unfoldable pub destruct : Process → Process
destruct p = close_socket p

-- The life of a client: one whose constructor returned is destroyed in the end.
unfoldable pub lifetime : Setup → Process → Process
lifetime s p = elim (construct s p).0 [
  | returns _ ↦ destruct (construct s p).1
  | throws e ↦ (construct s p).1
  | terminates ↦ (construct s p).1
]

-- Whichever call fails, and if none does, a client leaves as many descriptors open as there were before, and
-- it has opened none or one.
lifetime_lem :
    (s : Setup) (p : Process)
    → ((lifetime s p).opened + p.closed ≡ p.opened + (lifetime s p).closed)
      × ((lifetime s p).opened ≡ (if s.socket_made then p.opened + 1 else p.opened))
unfolding lifetime construct destruct
lifetime_lem s p = ground arith
