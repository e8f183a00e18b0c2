-- ===== src/Client.antt =====
-- client/udp_client.h and client/udp_client.cpp: the class UdpClient. What the system calls and the clock
-- answer enters as arguments; the text of an `errno` is what `strerror` makes of it.
pub mod Setup
pub mod Replies
pub mod Modes
mod Tests
use pgw.Base.{
  ℕ, ◌-◌, ◌*◌, ◌/◌, ◌%◌, ◌<◌, Bool, true, false, List, [], ◌∷◌, Text, codes, ite, Text_discrete,
  take, Outcome, returns, throws, terminates, ◌>>=◌, if◌then◌else◌, ltb,
}
use pgw.Imsi.{Imsi, make, to_bcd}
use pgw.Events.{Address}

pub data SendResult : Type 0 where
  success send_failed timeout invalid_response network_error : SendResult

-- `response_time` is in milliseconds.
pub record Reply : Type 0 where
  pub result : SendResult
  pub response_text : Text
  pub response_time : ℕ

abbrev pub reply : SendResult → Text → Reply
reply result text = record { result = result; response_text = text; response_time = 0 }

-- The answers of `sendto`, `select` and `recvfrom`.
pub data Sent : Type 0 where
  accepted : ℕ → Sent
  would_block : Sent
  refused : Text → Sent

pub data Selected : Type 0 where
  interrupted timed_out readable other_descriptor : Selected
  select_failed : Text → Selected

pub data Received : Type 0 where
  no_data : Received
  receive_failed : Text → Received
  datagram : List ℕ → Address → Received

-- The two words of the protocol are a success, anything else an invalid response.
unfoldable pub validate : Text → Reply
validate text =
    ite (Text_discrete text (codes "created")) (reply success text) (
      ite (Text_discrete text (codes "rejected")) (reply success text)
        (reply invalid_response text))

-- `receive_response`, with room for 1023 bytes. A datagram from another sender is only logged.
unfoldable pub receive_response : Received → Reply
receive_response no_data = reply timeout (codes "No data available")
receive_response (receive_failed error) = reply network_error error
receive_response (datagram [] from) = reply invalid_response (codes "Empty response")
receive_response (datagram (b ∷ bytes) from) = validate (take 1023 (b ∷ bytes))

-- The `timeval` that `select` waits for, from the timeout in milliseconds.
pub record TimeVal : Type 0 where
  pub tv_sec : ℕ
  pub tv_usec : ℕ

unfoldable pub to_timeval : ℕ → TimeVal
to_timeval ms = record { tv_sec = ms / 1000; tv_usec = ms % 1000 * 1000 }

unfoldable pub wait_for_response : Selected → Received → Reply
wait_for_response interrupted received = reply network_error (codes "Interrupted")
wait_for_response (select_failed error) received = reply network_error error
wait_for_response timed_out received = reply timeout (codes "No response within timeout")
wait_for_response readable received = receive_response received
wait_for_response other_descriptor received = reply network_error (codes "Unexpected select result")

-- The answers that one request meets, with the steady clock before and after, in nanoseconds.
pub record Answers : Type 0 where
  pub start_time : ℕ
  pub end_time : ℕ
  pub sent : Sent
  pub selected : Selected
  pub received : Received

-- The part of the request after the coding: a partial send is only logged.
unfoldable pub request : Answers → Sent → Reply
request answers would_block = reply send_failed []
request answers (refused error) = reply send_failed error
request answers (accepted n) = record (wait_for_response answers.selected answers.received) {
  response_time = (answers.end_time - answers.start_time) / 1000000;
}

-- The `try` block after the constructor of IMSI, and the `catch` clause.
unfoldable pub send_made : Answers → Outcome Imsi → List (List ℕ) × Reply
send_made answers (returns imsi) = (to_bcd imsi ∷ [], request answers answers.sent)
send_made answers (throws what) = ([], reply invalid_response what)
send_made answers terminates = ([], reply invalid_response [])

-- What is handed to `sendto`, if anything, and what the call returns.
unfoldable pub send_imsi_with_response : Answers → Text → List (List ℕ) × Reply
send_imsi_with_response answers imsi_str = send_made answers (make imsi_str)
