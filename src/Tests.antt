-- ===== src/Tests.antt =====
-- Test data, and the theorems at concrete inputs.
mod Data
mod Messages
mod Table
mod Lists
mod State
mod Running
mod Started
mod Received
mod Threads
mod Served
mod Printed
