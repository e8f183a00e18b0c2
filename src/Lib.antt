-- ===== src/Lib.antt =====
-- pgw is a small packet gateway: it takes IMSIs in BCD over UDP, keeps a session for each
-- subscriber, answers "created" or "rejected", writes a CDR file and offers an HTTP interface.
-- This library models its code as functions and step relations, and proves what is listed at the
-- end.
--
-- The parts, and the files that model them:
--
-- Base (Base.antt, Base/) holds what the others share: Boolean tests, lists measured by native
-- numbers, texts as lists of bytes, the outcomes of a call (a value, an exception,
-- `std::terminate`), and `std::unordered_map` and `std::unordered_set` over texts.
--
-- Imsi (Imsi.antt, Imsi/) is utils/include/pgw_utils/imsi.h. `make` is the constructor, `to_bcd`
-- the index loop over a vector of bytes, `from_bcd` the decoder; it is `noexcept` in the source,
-- so an exception in it is `terminates`. The loop of `to_bcd` has a round of fuel for each digit
-- and one more, and takes two digits a round, so the fuel never runs out (the proof of the round
-- trip rests on it). Packets is about the types that the two functions connect.
--
-- Sessions (Sessions.antt, Sessions/) is src/session_manager.h and src/session_manager.cpp. State
-- has the record of the class, Requests the public calls, Cleanup the thread that ends idle
-- sessions, Shutdown the graceful shutdown. Each section under a mutex is a function of its own;
-- Interleaving puts the sections of all threads in any order; Threads has client threads with
-- their calls and a scheduler, which is where `create_session` is split between its two locks: of
-- its children, Histories compares schedules with such orders, Linear with calls in a row, and
-- Refusal is about bans that come in between. Locks has what each section locks and touches,
-- Lifecycle and Subjects read the events subscriber by subscriber, Interference is about what
-- comes between the two locks of a cleanup pass, Rounds about the graceful shutdown among other
-- threads. Clock readings are arguments: one of each clock for a call, and where a thread reads
-- the system clock again for each event, these readings. The callback is the list of the events
-- that it was called with. `begin()` of the map is a parameter, with what the standard says of it
-- as a law. The loop of the graceful shutdown runs on fuel: one round for each session and one
-- more are enough. Spec is the abstract promise to clients, which Clients compares with the
-- requests, and Public with all the public methods.
--
-- Cdr (Cdr.antt, Cdr/) is src/cdr_writer.h and src/cdr_writer.cpp. The text of a second since the
-- epoch, which `gmtime` and `strftime` make, is a parameter; `to_string` has fuel for the nineteen
-- digits of an `int64_t`. The counter wraps at 2 ^ 64. Reading is a reader for the file, as
-- someone who bills by it may write it.
--
-- Events (Events.antt) is src/event.h. Dispatcher (Dispatcher.antt, Dispatcher/) is
-- src/event_dispatcher.h and src/event_dispatcher.cpp: the handler as a function, the worker
-- threads and their condition variable as a step relation, with files on the reachable states:
-- Exclusion on who holds the mutex, Progress on who can go on, Recovery on events that wait,
-- Joining on the end of the workers.
--
-- Udp (Udp.antt, Udp/) is src/udp_server.h and src/udp_server.cpp. The answers of `epoll_wait` and
-- `recvfrom` enter as lists, and the queue library's `try_enqueue` as a parameter. An event
-- reaches the dispatcher's queue with the bytes that the buffer kept, and each event is notified.
-- Setup has the constructor, over the answers of its system calls and the descriptors of Fd, and
-- the destructor that the compiler makes.
--
-- Json.antt is the interface of the JSON library that Http, Config and App take. Http (Http.antt,
-- Http/) is src/http_server.h and src/http_server.cpp: the handlers, the routes that lead to them,
-- and the life of the server's thread under starts, stops, the detached threads of /stop and the
-- end of `listen`. Config (Config.antt, Config/) is src/server_config.h,
-- utils/include/pgw_utils/config_loader.h and client/client_config.cpp. App (App.antt, App/) is
-- src/pgw_server_app.cpp, which reads the configuration and the blacklist and puts the parts
-- together; App/Construction and App/Blacklist look at what the constructor leaves, App/Service
-- follows a request through the parts, App/Main (src/main.cpp) goes from the command line to the
-- end of `run`, and App/Shutdown destroys the members in the reverse of their order, as steps
-- between those of the workers. Logger (Logger.antt, Logger/) is utils/logger_config.cpp and
-- utils/include/pgw_utils/logger_config.h: the loggers by name, with sinks as their levels, and
-- the macros by the calls that they make; what spdlog answers (whether a file can be opened, a
-- weak pointer locked) is a record that `configure_logger` and its like take. App/Logs has the
-- loggers that the application sets up.
--
-- App/Lifetimes is about the pointers that own the parts and the references that do not.
-- App/Server is the server while it runs: the pool of Dispatcher/Workers, the SessionManager, the
-- calls of `create_session` that stand between their two sections, the datagrams read and the
-- answers sent, and what each thread can do next, in any order. A packet that codes no IMSI ends
-- the process and is no step. Its children: Answers counts datagrams and answers, Verdicts what
-- the answers say, Histories reads a run as a history of the manager's sections, Records reads the
-- CDR file that a run leaves, Checks sets the HTTP answers beside it, Refusals is about the
-- blacklist, Completion about how what was read comes to be answered.
--
-- Client (Client.antt, Client/) is client/udp_client.cpp and client/main.cpp: a request over the
-- answers of the system calls, the constructor and its descriptor, and the modes of the command
-- line. Fd (Fd.antt, Fd/) is utils/unique_fd.cpp. Generator (Generator.antt) is
-- imsi_generator/main.cpp; its loop has eleven rounds of fuel, and each of the ten digits that are
-- missing takes one. How they meet: Udp fills the queue that Dispatcher's workers empty; a worker
-- decodes by Imsi and calls Sessions; the events of Sessions are the input of Cdr; the answer goes
-- back through Udp.
--
-- Not modelled: log messages, log rotation (spdlog), the HTTP and JSON libraries, and the passing
-- of real time. Simplified: the lines of the CDR file are those of this run, which the rotating
-- sink appends to those of an earlier one; the dispatcher's flag and notification may come at any
-- time, where the code sends them after a datagram that it queues (App/Server/Completion has a
-- path that needs none); in App/Lifetimes destructors return, which that of the dispatcher does
-- not (App/Main); a detached thread of /stop that comes after the destructor of the HTTP server is
-- no step. The steps of the running server take the event queue to be there, though its last owner
-- goes when `init_components` returns (App/Lifetimes). The choice of a handler for an HTTP request
-- is the library's.
pub mod Base
pub mod Imsi
pub mod Sessions
pub mod Cdr
pub mod Events
pub mod Dispatcher
pub mod Udp
pub mod Http
pub mod Json
pub mod Config
pub mod App
pub mod Fd
pub mod Client
pub mod Generator
pub mod Logger
