-- ===== src/RadixSpline.antt =====
-- index/rs: RadixSpline, a spline through the positions of sorted keys with a radix table over it,
-- and the multimap on top of it.
pub mod Sorted
pub mod Spline
pub mod MultiMap
pub mod Builder
mod Tests
