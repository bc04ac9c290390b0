-- ===== src/Lib.antt =====
-- A model of pam_nps, a PAM module that authenticates against a RADIUS server (Microsoft NPS) with
-- a second factor, and what is proved of it.
--
-- The program is a chain of crates. `crates/pam-ffi` is the module: it takes the user name and the
-- password, loads the configuration (`crates/config`) and runs one attempt
-- (`crates/pam-ffi/src/flow.rs`). An attempt builds requests with `crates/mschapv2` or `crates/pap`
-- over `crates/radius`, exchanges them over a transport (`crates/radius/src/transport.rs`), and
-- decides on the bound response. `crates/audit` records the result.
--
-- Which file models which part:
--   Base          lists, results, big-endian words, text and bits that the parts share
--   Primitives    MD5, HMAC-MD5, MD4, SHA-1 and DES, which third-party crates supply, as a record
--                 of functions with the lengths of their results
--   World         what the program does not decide: the system's randomness, the conversation and
--                 the transport, as answers to the history of the attempt
--   Radius        crates/radius/src/lib.rs; Radius/Parse is parse.rs, Radius/Packet is packet.rs,
--                 Radius/Auth is auth.rs, Radius/Binding is binding.rs
--   Config        the typed configuration of crates/config/src/lib.rs
--   Pap           crates/pap/src/lib.rs
--   Mschap        crates/mschapv2; Mschap/Crypto is crypto.rs, Mschap/Vsa is vsa.rs,
--                 Mschap/Exchange is flow.rs; Mschap/Exchange/Rfc2759 is the computation of the
--                 RFC as a server does it, written apart from the code
--   Flow          crates/pam-ffi/src/flow.rs; Flow/Packets builds the requests, Flow/Push is
--                 `mschapv2_flow`, Flow/Rounds is `pap_flow` with `pap_rounds`, Flow/Authenticate
--                 is `authenticate_report`; Flow/Trace reads a history, and Flow/Induction
--                 is induction over the histories of `mschapv2_flow`; Flow/Push/Requests and
--                 Flow/Rounds/Requests say what is asked of the transport
--   Config/Parse  `parse` of crates/config/src/lib.rs, over Base/Str (words and lines) and
--                 Config/Address (the address parser of the standard library); Config/Parse/Spec
--                 says what the entries of a text are
--   Config/Load   the permission check and `load` of crates/config/src/lib.rs; the file system
--                 answers by the log of what was done with it, and Base/Utf8 decodes
--   Radius/Udp    crates/radius/src/udp.rs: `exchange` over a socket and a clock that answer by the
--                 log of the exchange; Radius/Udp/Panic tells which exchanges panic
--   System        what a call meets outside the program (randomness, the application's callback and
--                 its memory, the sockets and the clock), and the `World` that `sm_authenticate` of
--                 crates/pam-ffi/src/lib.rs makes of it with `PamConversation` and `UdpTransport`;
--                 System/Notice and System/Sent follow an attempt into the conversation and onto the
--                 network
--   Audit         crates/audit/src/record.rs and lib.rs, crates/pam-ffi/src/audit_emit.rs;
--                 Audit/Native is crates/audit/src/ffi.rs, the calls of libaudit and syslog
--   Boundary      crates/pam-ffi/src/lib.rs and options.rs, and what ffi.rs makes of the user name
--                 and the authtok that libpam hands out; Boundary/Entry is the exported functions of
--                 ffi.rs with the guard that catches a panic
--   Memory        the strings of a conversation on the C heap: live, or freed with what they held
--   Conversation  `converse` of crates/pam-ffi/src/ffi.rs over the application's callback, and
--                 `clamp` and `PamConversation` of crates/pam-ffi/src/conversation.rs
--   Tests         runs at concrete inputs
--
-- How the code is carried over. Octets, lengths and times are natural numbers, with the wrap-around
-- of the source written out; a text is the list of its code points. A function that can fail
-- returns a `Result`. Code that talks to the world is a function from the history of the attempt,
-- newest event first, to its result and the longer history, so that a statement about every
-- `World` covers every order of answers. Loops over lists are structural; the challenge rounds
-- count down from the bound of the source.
-- The two loops that the source leaves open run on fuel: the turns of `exchange` in udp.rs and the
-- calls of `send` in `send_request`. `mfa_timeout + 1` turns are enough where each `recv` takes
-- at least a nanosecond, and `k` calls where fewer than `k` in a row are interrupted by a signal;
-- Radius/Udp/Termination says so.
--
-- Not modelled: zeroization in Rust's own memory, and so the wrappers of crates/secrets, which hand
-- out what they hold; the guard of `emit_once` against a sink that panics, since the sinks of a
-- configured backend drop their errors; and the hardening of the process.

pub mod Base
pub mod Primitives
pub mod World
pub mod System
pub mod Radius
pub mod Config
pub mod Pap
pub mod Mschap
pub mod Flow
pub mod Audit
pub mod Boundary
mod Tests
pub mod Memory
pub mod Conversation
