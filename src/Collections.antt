-- ===== src/Collections.antt =====
-- The standard collections as the code uses them: a hash map, an ordered set, a list without
-- repetitions, and `sort_by`.
pub mod HashMap
pub mod Distinct
pub mod Sort
pub mod SortedSet
