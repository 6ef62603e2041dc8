-- ===== src/FitingTree.antt =====
-- index/FITing-tree: an ordered index whose leaves are arrays searched from a predicted position.
pub mod Float
pub mod Parameters
pub mod Records
pub mod Search
pub mod Scan
pub mod InplaceNode
pub mod Buffer
pub mod BufferNode
pub mod Segment
pub mod Node
pub mod Tree
pub mod Entries
pub mod Index
pub mod InplaceIndex
pub mod BufferIndex
mod Tests
