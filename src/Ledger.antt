-- ===== src/Ledger.antt =====
-- internal/ledger: usage records, the recorder that buffers them, and the store that holds them.
pub mod Usage
pub mod Recorder
pub mod Store
mod Examples
