-- ===== src/Jobs/RoundTrip.antt =====
-- upload_job.go and download_job.go: what a download makes of the parts that an upload has posted.
pub mod Parts
pub mod Whole
