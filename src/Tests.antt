-- ===== src/Tests.antt =====
-- Runs at concrete inputs.
mod Data
mod Texts
mod Transport
mod Orders
mod Threads
mod Listener
mod Programs
mod Oversized
mod Shadowed
mod Queues
mod Requests
mod Displays
