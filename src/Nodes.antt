-- ===== src/Nodes.antt =====
-- SharedHeap.cpp: the processes of a node, which share a file: how they enter and leave, and their steps on
-- the metadata in any order.
pub mod State
pub mod Steps
pub mod Invariant
pub mod Views
pub mod ActLaws
pub mod CreateLaws
pub mod JoinLaws
pub mod Safety
pub mod Sharers
pub mod Leaving
pub mod Savings
