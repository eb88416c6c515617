-- ===== src/Server.antt =====
-- pkg/server: the request handlers over a backend.
pub mod Version
pub mod Request
pub mod Backend
pub mod Convert
pub mod Shapes
pub mod Txn
pub mod Etcd
pub mod Plain
pub mod TxnSpecs
pub mod TxnRefinement
pub mod Range
pub mod Pages
pub mod RangeListing
pub mod Existing
pub mod Members
pub mod Examples
pub mod Watch
pub mod WatchSteps
pub mod WatchOrder
pub mod WatchCancel
pub mod WatchExamples
