-- ===== src/Examples.antt =====
-- Runs on small inputs, and the theorems at them.
mod Transfers
mod Queues
mod Tasks
mod Nodes
mod Streams
mod Memory
mod Disks
mod Tunnels
mod Numbers
