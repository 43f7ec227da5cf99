-- ===== src/Dtls/Tests.antt =====
-- Tests of the DTLS parts.
mod Replayed
mod Queued
mod Fragments
mod Received
mod Timed
