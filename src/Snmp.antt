-- ===== src/Snmp.antt =====
-- lib/Snmp/src/SNFSnmp.
pub mod Oid
