-- ===== src/Transport.antt =====
-- pkg/transport: the framed TCP protocol between the cloud sender and the VM receiver.
pub mod Protocol
pub mod Loop
pub mod Payload
pub mod Queue
pub mod Receiver
pub mod Sender
mod Tests
