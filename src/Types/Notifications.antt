-- ===== src/Types/Notifications.antt =====
-- The notification inbox (frontend/src/types/index.ts).
use nestlio.Prelude.{ℕ, Bool, Option, List, String, Text}

pub record NotificationReactionOut : Type 0 where
  pub user_id : String
  pub display_name : String
  pub emoji : String
  pub message : Option String
  pub created_at : Text

pub data NotifType : Type 0 where
  email_weekly email_monthly threshold_alert goal_milestone challenge_success event_reminder
        event_change goal_cheer savings_pace_reminder partner_saving todo google_reauth other :
      NotifType

pub record NotificationOut : Type 0 where
  pub id : ℕ
  pub notif_type : NotifType
  pub related_type : Option String
  pub related_id : Option ℕ
  pub year_month : Option Text
  pub sent_at : Text
  pub detail : Option String
  pub is_read : Bool
  pub reactions : List NotificationReactionOut

pub record NotificationListOut : Type 0 where
  pub items : List NotificationOut
  pub unread_count : ℕ
