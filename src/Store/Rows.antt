-- ===== src/Store/Rows.antt =====
-- internal/store/store.go: the statuses, the rows of the tables and the arguments of the inserts.
-- A job's id, a UUID, is a number; times and durations are numbers of one unit. The JSONB columns
-- hold JSON objects.
use bytefetch.Prelude.{ℕ, Text, Bool, true, false, Option}
use bytefetch.Json.{Object}

pub data JobStatus : Type 0 where
  queued running completed completed_with_errors failed cancelled : JobStatus

pub data TaskStatus : Type 0 where
  queued processing done failed skipped : TaskStatus

-- The values that the column `type` of the table `jobs` admits.
pub data JobType : Type 0 where
  scrape batch_scrape crawl map : JobType

pub record Job : Type 0 where
  pub id : ℕ
  pub status : JobStatus
  pub type : JobType
  pub params : Object
  pub error : Option Text
  pub expires_at : Option ℕ
  pub deadline : Option ℕ
  pub created_at : ℕ
  pub updated_at : ℕ

pub record Task : Type 0 where
  pub id : ℕ
  pub job_id : ℕ
  pub requested_url : Text
  pub final_url : Text
  pub depth : ℕ
  pub status : TaskStatus
  pub error : Option Text
  pub processing_started_at : Option ℕ
  pub heartbeat_at : Option ℕ
  pub attempts : ℕ
  pub created_at : ℕ
  pub updated_at : ℕ

-- The fields of a `Task` that its insert reads.
pub record NewTask : Type 0 where
  pub requested_url : Text
  pub final_url : Text
  pub depth : ℕ
  pub status : TaskStatus

pub record Document : Type 0 where
  pub job_id : ℕ
  pub requested_url : Text
  pub final_url : Text
  pub title : Text
  pub content_md : Text
  pub content_raw : Text
  pub meta : Object

pub record DocumentRow : Type 0 where
  pub id : ℕ
  pub document : Document
  pub open document use *
  pub created_at : ℕ

pub record MappedInsert : Type 0 where
  pub job_id : ℕ
  pub source_url : Text
  pub target_url : Text
  pub depth : ℕ

pub record MappedRow : Type 0 where
  pub id : ℕ
  pub entry : MappedInsert
  pub open entry use *
  pub created_at : ℕ

pub record JobStats : Type 0 where
  pub queued : ℕ
  pub processing : ℕ
  pub done : ℕ
  pub failed : ℕ
  pub skipped : ℕ
  pub total : ℕ
  pub attempts : ℕ

-- A row of the table `dedupe_cache`.
pub record SeenUrl : Type 0 where
  pub canonical_url : Text
  pub last_seen : ℕ

-- `a == b` on the statuses.
unfoldable pub task_status_eq : TaskStatus → TaskStatus → Bool
task_status_eq TaskStatus.queued TaskStatus.queued = true
task_status_eq TaskStatus.processing TaskStatus.processing = true
task_status_eq TaskStatus.done TaskStatus.done = true
task_status_eq TaskStatus.failed TaskStatus.failed = true
task_status_eq TaskStatus.skipped TaskStatus.skipped = true
task_status_eq _ _ = false

unfoldable pub job_status_eq : JobStatus → JobStatus → Bool
job_status_eq JobStatus.queued JobStatus.queued = true
job_status_eq JobStatus.running JobStatus.running = true
job_status_eq JobStatus.completed JobStatus.completed = true
job_status_eq JobStatus.completed_with_errors JobStatus.completed_with_errors = true
job_status_eq JobStatus.failed JobStatus.failed = true
job_status_eq JobStatus.cancelled JobStatus.cancelled = true
job_status_eq _ _ = false
