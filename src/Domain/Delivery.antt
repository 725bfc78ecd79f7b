-- ===== src/Domain/Delivery.antt =====
-- The enumerations and the rows of the outbox, the journals, the webhooks, the audit log, the refresh
-- tokens and the links to files (app/modules/{outbox,journal,audit,identity,files},
-- app/webhooks/models.py). Columns
-- that no modelled operation reads or writes are left out.
use dimax_ops_backend.Base.{Bool, ℕ, Option, String}
use dimax_ops_backend.Domain.Rows.{DoorStatus, IssueStatus, IssueWorkflowState, IssuePriority}

pub data OutboxStatus : Type 0 where
  pending sent failed : OutboxStatus

pub data OutboxChannel : Type 0 where
  email whatsapp : OutboxChannel

pub data DeliveryStatus : Type 0 where
  pending delivered failed : DeliveryStatus

pub data JournalStatus : Type 0 where
  draft active archived : JournalStatus

pub data JournalDeliveryStatus : Type 0 where
  none pending delivered failed : JournalDeliveryStatus

pub data UserRole : Type 0 where
  admin installer : UserRole

-- The keys of `OutboxMessageORM.payload` that the worker reads.
pub record MessagePayload : Type 0 where
  pub to_email : Option String
  pub to_phone : Option String
  pub subject : Option String
  pub body_text : Option String
  pub media_url : Option String
  pub object_key : Option String
  pub attachment_name : Option String
  pub fallback_email : Option String
  pub fallback_subject : Option String
  pub fallback_body_text : Option String
  pub fallback_reason : Option String

pub record OutboxMessage : Type 0 where
  pub id : ℕ
  pub company_id : ℕ
  pub created_at : ℕ
  pub channel : OutboxChannel
  pub status : OutboxStatus
  pub correlation_id : Option ℕ
  pub payload : MessagePayload
  pub attempts : ℕ
  pub max_attempts : ℕ
  pub last_error : Option String
  pub scheduled_at : ℕ
  pub sent_at : Option ℕ
  pub provider_message_id : Option String
  pub provider_status : Option String
  pub provider_error : Option String
  pub delivery_status : DeliveryStatus
  pub delivered_at : Option ℕ

pub record Journal : Type 0 where
  pub id : ℕ
  pub company_id : ℕ
  pub project_id : ℕ
  pub status : JournalStatus
  pub title : Option String
  pub public_token : Option String
  pub public_token_expires_at : Option ℕ
  pub signed_at : Option ℕ
  pub signer_name : Option String
  pub snapshot_version : ℕ
  pub email_delivery_status : JournalDeliveryStatus
  pub whatsapp_delivery_status : JournalDeliveryStatus
  pub email_last_sent_at : Option ℕ
  pub whatsapp_last_sent_at : Option ℕ
  pub whatsapp_delivered_at : Option ℕ
  pub email_last_error : Option String
  pub whatsapp_last_error : Option String

pub record JournalDoorItem : Type 0 where
  pub id : ℕ
  pub company_id : ℕ
  pub journal_id : ℕ
  pub door_id : ℕ
  pub unit_label : String
  pub door_type_id : ℕ
  pub installed_at : Option ℕ

pub record JournalSignature : Type 0 where
  pub id : ℕ
  pub company_id : ℕ
  pub journal_id : ℕ
  pub signer_name : String

pub record WebhookEvent : Type 0 where
  pub company_id : Option ℕ
  pub provider : String
  pub event_type : String
  pub external_id : Option String
  pub delivery_result : String

-- The dictionaries that audit entries keep as `before` and `after`.
pub data AuditSnapshot : Type 0 where
  door_snapshot :
      DoorStatus
      → (reason_id : Option ℕ) → (comment : Option String) → (installed_at : Option ℕ)
      → (is_locked : Bool) → (rate : Option ℕ) → AuditSnapshot
  issue_snapshot :
      (door_id : ℕ)
      → IssueStatus
      → IssueWorkflowState
      → IssuePriority
      → (owner_user_id due_at : Option ℕ) → (title details : Option String) → AuditSnapshot
  outbox_snapshot :
      OutboxStatus
      → DeliveryStatus
      → (provider_message_id provider_status provider_error : Option String)
      → (delivered_at : Option ℕ) → (last_error : Option String) → AuditSnapshot
  plan_alert_snapshot :
      (metric level : String)
      → (current limit utilization_pct : ℕ) → (plan_code : String) → AuditSnapshot
  installer_snapshot :
      (full_name : String) (phone : Option String) (status : String) (is_active : Bool)
      → (user_id deleted_at : Option ℕ) → AuditSnapshot
  installer_rate_snapshot : (installer_id door_type_id price effective_from : ℕ) → AuditSnapshot
  risk_snapshot : IssueStatus → (title : String) → AuditSnapshot

pub record AuditLog : Type 0 where
  pub company_id : ℕ
  pub actor_user_id : ℕ
  pub entity_type : String
  pub entity_id : ℕ
  pub action : String
  pub reason : Option String
  pub before : Option AuditSnapshot
  pub after : Option AuditSnapshot
  pub created_at : ℕ

pub record User : Type 0 where
  pub id : ℕ
  pub company_id : ℕ
  pub email : String
  pub role : UserRole
  pub password_hash : String
  pub is_active : Bool

pub record RefreshToken : Type 0 where
  pub id : ℕ
  pub company_id : ℕ
  pub user_id : ℕ
  pub jti : String
  pub token_hash : String
  pub expires_at : ℕ
  pub revoked_at : Option ℕ
  pub replaced_by_jti : Option String

-- A link by which a file can be downloaded without a login.
pub record FileToken : Type 0 where
  pub id : ℕ
  pub company_id : ℕ
  pub token : String
  pub object_key : String
  pub bucket : String
  pub mime_type : String
  pub file_name : Option String
  pub expires_at : ℕ
  pub uses_left : ℕ
  pub last_used_at : Option ℕ
  pub last_used_ip : Option String
  pub last_used_ua : Option String
  pub audience : Option String

pub record FileDownloadEvent : Type 0 where
  pub id : ℕ
  pub company_id : ℕ
  pub source : String
  pub token : Option String
  pub object_key : String
  pub bucket : String
  pub mime_type : String
  pub file_name : Option String
  pub ip : Option String
  pub user_agent : Option String
  pub actor_user_id : Option ℕ
  pub correlation_id : Option ℕ
