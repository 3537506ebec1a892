-- ===== src/Csv.antt =====
-- app/services/csv_validation.py: the streaming validation of a CSV report.
pub mod ChunkReader
pub mod Issue
pub mod RawData
pub mod Quantity
pub mod Header
pub mod Row
pub mod Records
pub mod Reader
pub mod Parse
pub mod Stream
mod Tests
