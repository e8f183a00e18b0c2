-- ===== src/Events.antt =====
-- src/event.h: what the queue holds, and what is sent back to a client.
use pgw.Base.{ℕ, Bool, List, Text}

-- `sockaddr_in`: the address and the port.
pub record Address : Type 0 where
  pub s_addr : ℕ
  pub sin_port : ℕ

-- `has_response` says whether `response_callback` is set.
pub record UdpEvent : Type 0 where
  pub bytes : List ℕ
  pub client_addr : Address
  pub has_response : Bool

pub record HttpEvent : Type 0 where
  pub path : Text
  pub method : Text
  pub body : Text

pub data Event : Type 0 where
  udp : UdpEvent → Event
  http : HttpEvent → Event

-- A call of a response callback: the text and the client it goes to.
pub record Response : Type 0 where
  pub text : Text
  pub client : Address
