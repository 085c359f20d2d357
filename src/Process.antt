-- ===== src/Process.antt =====
-- SharedHeap.cpp: a process with the state of its merge policy, and its entry points.
pub mod Calls
pub mod MallocLaws
pub mod FaultParts
pub mod FaultNotes
pub mod FaultPolicies
pub mod Realloc
pub mod ReallocLaws
pub mod Start
pub mod StartLaws
pub mod RoundTrip
