-- ===== src/Host/Preparation.antt =====
-- components/execution-host/src/preparation_metrics.rs: the lifetimes of module preparations and their
-- accounting. The shared `Inner` is a record; a method takes it and the state of one preparation and
-- returns both. Instants are numbers and `now` is an argument; a histogram is the list of its
-- observations, and a counter the list or the number of its events.
pub mod Counts
pub mod Work
pub mod Balance
pub mod Outcomes
pub mod Finish
