-- ===== src/Settings.antt =====
-- src/cnaas_nms/db/settings.py: the checks of the settings and the groups of devices. Reading and
-- validating the YAML files is left to parameters.
pub mod Vlans
pub mod Groups
