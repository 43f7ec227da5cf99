-- ===== src/Statem/Tests.antt =====
-- Tests of the state machines.
mod Flights
mod Accepted
mod Passes
