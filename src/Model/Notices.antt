-- ===== src/Model/Notices.antt =====
-- Notifications, and the jobs of the email queue.
use ride_sharing_backend.Common.{ℕ, String, Bool, Option}

pub data NotificationChannel : Type 0 where
  email socket push sms : NotificationChannel

pub data NotificationStatus : Type 0 where
  pending sent failed : NotificationStatus

pub record Notification : Type 0 where
  pub user_id : ℕ
  pub channel : NotificationChannel
  pub title : String
  pub status : NotificationStatus
  pub is_read : Bool
  pub sent_at : Option ℕ

-- A job carries the notification's id, so that the worker can update its row. The body is left out.
pub record EmailJob : Type 0 where
  pub notification_id : ℕ
  pub to : String
  pub subject : String
