-- ===== src/Client.antt =====
-- `Client` (buildbox-common/buildboxcommon/buildboxcommon_client.h and .cpp): how lists of blobs are
-- split over requests, and what the requests return.
pub mod Batches
pub mod Requests
pub mod Missing
pub mod Upload
pub mod Download
pub mod Stream
mod Tests
