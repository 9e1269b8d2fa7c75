-- ===== src/Notification/Domain.antt =====
-- NotificationLog of services/notification/internal/repository/repository.go.
use parkirpintar.Common.{String}
use parkirpintar.Common.Time.{Time}

pub record NotificationLog : Type 0 where
  pub id : String
  pub driver_id : String
  pub channel : String
  pub template_id : String
  pub title : String
  pub body : String
  pub status : String
  pub error_message : String
  pub sent_at : Time
