-- ===== src/Dtls.antt =====
-- The parts of DTLS: the replay window of the record layer, the queue of buffered items and the
-- retransmission timer.
pub mod Bitmap
pub mod Pqueue
pub mod Message
pub mod Reassembly
pub mod Inbox
pub mod Timer
mod Tests
