-- ===== src/Avl.antt =====
-- AVL.h and AVL.cpp: the tree that records the allocated regions.
pub mod Tree
pub mod Insert
pub mod Remove
pub mod Search
pub mod Order
pub mod Assoc
pub mod Bindings
pub mod InsertLaws
pub mod RemoveLaws
pub mod Ranges
pub mod SearchLaws
pub mod TraverseLaws
pub mod Refinement
pub mod Heights
