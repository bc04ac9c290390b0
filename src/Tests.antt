-- ===== src/Tests.antt =====
-- Concrete runs, and the theorems at concrete inputs. The cryptographic crates are stood in for by
-- checksums of the right sizes, the network by a server that answers one packet.
mod Fixtures
mod Codec
mod Transport
mod Attempts
mod Surroundings
mod Online
mod Sockets
mod Module
mod Settings
mod Conversations
mod Requests
mod Vendor
