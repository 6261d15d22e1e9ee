-- ===== src/Jobs.antt =====
-- ol1n-vault/internal/jobs: the worker and the two jobs that it runs.
pub mod Worker
pub mod Upload
pub mod Download
pub mod RoundTrip
pub mod Start
