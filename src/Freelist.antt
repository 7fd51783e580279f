-- ===== src/Freelist.antt =====
-- freelist.go and freelist_hmap.go: the pages that are free, and those that will be once the
-- transactions that may still read them are over. `State` has the struct, `Array` and `Hashmap` the
-- two back ends, `Ops` the operations that are common to both, `FreePages` how the
-- database calls them for the open readers.
pub mod State
pub mod Array
pub mod Hashmap
pub mod Laws
pub mod Backends
pub mod Ops
pub mod FreePages
mod Tests
