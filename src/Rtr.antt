-- ===== src/Rtr.antt =====
-- rpki/rtr: the rpki-router protocol, from the wire format of its PDUs to what a server and a client do.
pub mod Bytes
pub mod Pdu
pub mod Reader
pub mod Compare
pub mod Check
pub mod Generator
pub mod Client
pub mod Text
pub mod Server
pub mod Channel
pub mod Body
pub mod LongBody
pub mod Wire
pub mod Written
pub mod RoundTrip
pub mod Sound
pub mod Session
pub mod Current
mod Examples
mod SessionExamples
mod ChannelExamples
