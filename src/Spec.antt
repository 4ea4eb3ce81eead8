-- ===== src/Spec.antt =====
-- What the containers promise, over plain lists of numbers: ascending sets and membership.
pub mod SortedSet
pub mod Requests
pub mod Calls
pub mod SetCalls
pub mod History
pub mod Numbered
