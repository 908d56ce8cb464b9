-- ===== src/Webmon.antt =====
-- webmon: the monitor that collects the profiles.
pub mod MessageBuf
pub mod Samples
pub mod RoundTrip
pub mod Sequence
pub mod Receive
pub mod Collect
pub mod Names
pub mod Answer
pub mod DataStore
pub mod Integrate
pub mod Texts
pub mod Dump
pub mod Connections
pub mod Global
pub mod Requests
pub mod Slices
pub mod Nodes
pub mod Current
pub mod Clear
pub mod Store
pub mod Totals
pub mod Polls
pub mod SliceLookup
pub mod Quantity
pub mod Merge
pub mod Examples
