-- ===== src/Wf.antt =====
-- wf/: the structures in which every operation ends in a bounded number of its own steps.
pub mod Avl
pub mod RingBuffer
pub mod Universal
pub mod Stack
pub mod Deque
pub mod Map
pub mod DequeTree
pub mod MapTree
