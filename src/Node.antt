-- ===== src/Node.antt =====
-- The background node (src/node/core): admission, scheduling and lifecycle.
-- A `NodeId` (16 bytes) and a `TaskId` (32 lowercase hexadecimal digits) are 128-bit numbers here;
-- the code compares them for equality, and node identifiers also for order, which on byte arrays is
-- the order of the numbers that they spell. In Task, which parses them, they are the digits.
pub mod Activity
pub mod Peers
pub mod Progress
pub mod Queue
pub mod Space
pub mod Task
