-- ===== src/Tests.antt =====
-- Concrete runs, and the theorems at concrete inputs.
mod Values
mod Packets
mod Payloads
mod Wire
mod Delivery
mod Fragments
mod Noise
mod Sessions
mod Services
mod Conversations
