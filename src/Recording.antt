-- ===== src/Recording.antt =====
-- csv_provider: the recorder of a databroker's updates and the provider that plays them back.
pub mod Csv
pub mod Recorder
pub mod Provider
