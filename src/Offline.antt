-- ===== src/Offline.antt =====
-- The queue of offline submissions: packages/shared/src/offline-queue.ts. A time is its number of
-- milliseconds, or `none` where Date reads none. Store is queue-store.ts and Engine sync-engine.ts of
-- apps/web/src/lib/offline.
pub mod Store
pub mod Conflicts
pub mod Engine
pub mod Bounds
pub mod Honest
pub mod Server
mod Tests
use Prim.Native.String as Text
use fg_details_to_be_added_f.Prelude.{
  ℕ, zero, suc, String, ◌==◌, ◌+◌, ◌-◌, ◌*◌, Bool, true, false, ◌&&◌, ◌||◌, not, Option, none, some,
  List, [], ◌∷◌, length, keep, eqb, ltb, leb, is_some, to_lower, contains, if◌then◌else◌,
}
use fg_details_to_be_added_f.Records
use fg_details_to_be_added_f.Records.{RecordStatus, same_status, has_status}
use fg_details_to_be_added_f.Exec.{Outcome, ok, err, Exec, ◌>>=◌, ◌>>◌, pure, throw, gets, modify}

-- OfflineQueueState
pub data QueueState : Type 0 where
  saved_on_device waiting_to_sync syncing synced sync_failed conflict_requires_review : QueueState

-- OfflineConflictReason
pub data ConflictReason : Type 0 where
  server_record_already_submitted record_already_checked record_already_verified : ConflictReason
  template_version_changed user_permission_changed record_date_or_task_invalid : ConflictReason
  newer_server_version : ConflictReason

-- OfflineQueueRecordType
pub data RecordType : Type 0 where
  daily_cleaning freezer_truck corrective_action_draft : RecordType

-- A time that Date reads from a text, if it reads one.
abbrev pub Time : Type 0
Time = Option ℕ

-- OfflineQueueItem. What becomes of the payload is up to the API.
pub record QueueItem : Type 0 where
  pub id : String
  pub record_type : RecordType
  pub record_id : String
  pub idempotency_key : String
  pub state : QueueState
  pub payload : String
  pub template_version_number : Option ℕ
  pub server_updated_at : Option Time
  pub created_at : ℕ
  pub updated_at : ℕ
  pub attempt_count : ℕ
  pub last_error : Option String
  pub conflict_reason : Option ConflictReason
  pub next_retry_at : Option ℕ

abbrev pub is_synced : QueueState → Bool
is_synced synced = true
is_synced _ = false

-- OFFLINE_QUEUE_MAX_ENTRIES
abbrev pub max_entries : ℕ
max_entries = 40

abbrev pub pow2 : ℕ → ℕ
pow2 zero = 1
pow2 (suc n) = 2 * pow2 n

-- nextRetryDelayMs of a count of attempts
unfoldable pub next_retry_delay_ms : ℕ → ℕ
next_retry_delay_ms attempt =
    let delay = 2_000 * pow2 attempt in if leb delay 60_000 then delay else 60_000
