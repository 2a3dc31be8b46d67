-- ===== src/Dds.antt =====
-- The DDS provider, dds2val: samples of DDS topics become datapoints of a databroker.
pub mod Mapper
pub mod Provider
pub mod Listener
pub mod Session
pub mod Kml
