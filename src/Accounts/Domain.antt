-- ===== src/Accounts/Domain.antt =====
-- A row of the table `drivers` of migrations/.
use parkirpintar.Common.{String}

pub record Driver : Type 0 where
  pub driver_id : String
  pub name : String
  pub email : String
  pub phone : String
  pub password_hash : String
  pub vehicle_type : String
