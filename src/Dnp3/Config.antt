-- ===== src/Dnp3/Config.antt =====
-- `Dnp3OutstationConfig`, the class that dnp3/outstation_server.py declares.
use cursus.Prelude.{ℕ, Option, none, some}

pub record Dnp3OutstationConfig : Type 0 where
  pub database_size : ℕ
  pub event_buffer_size : ℕ
  pub local_addr : ℕ
  pub remote_addr : ℕ

abbrev pub default_outstation : Dnp3OutstationConfig
default_outstation = record {
  database_size = 10;
  event_buffer_size = 10;
  local_addr = 10;
  remote_addr = 1;
}

abbrev pub outstation_config : Option Dnp3OutstationConfig → Dnp3OutstationConfig
outstation_config none = default_outstation
outstation_config (some config) = config
