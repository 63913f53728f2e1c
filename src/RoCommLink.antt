-- ===== src/RoCommLink.antt =====
-- RoCommLink, the link layer under document/laboratory/cpp/RoCommLink: packets and their wire
-- format, the byte parser, and the services above them.
pub mod Packet
pub mod Serializer
pub mod Parser
pub mod Tracker
pub mod Router
pub mod Dispatcher
pub mod Link
pub mod TaskQueue
mod Tests
