-- ===== src/Pages.antt =====
-- SharedHeap.cpp: what a process records of its pages and of those that all processes share, and the
-- steps that change one page.
pub mod Memory
pub mod State
pub mod Steps
pub mod Sums
pub mod Account
pub mod Others
pub mod StepLaws
