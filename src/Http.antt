-- ===== src/Http.antt =====
-- src/http: the endpoints' handlers, the server around them, and what is recorded of a request. A
-- handler is a function of the server's state; the ports are a record of functions, and a clock
-- reading is an argument. The handlers' notes for the log are arguments of Observe.
pub mod Effect
pub mod Health
pub mod Command
pub mod Pipeline
pub mod MultiExec
pub mod Observe
pub mod InFlight
pub mod Balanced
pub mod Labelled
pub mod Serve
pub mod Charged
pub mod Sends
pub mod Permitted
pub mod Answered
pub mod Served
pub mod Audit
pub mod Noted
pub mod Audited
pub mod Tests
pub mod ServerTests
