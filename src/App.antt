-- ===== src/App.antt =====
-- src/main.cpp around the bridge: the probe mode, and main.
pub mod Probe
pub mod Main
