-- ===== src/Tests/Data.antt =====
-- A small database, a configuration and a toy `net/url`.
use bytefetch.Prelude.{
  ℕ, Text, codes, false, none, some, [], ◌∷◌, refl, ◌==◌, arith, if◌then◌else◌, is_empty,
}
use bytefetch.Store.Rows.{Job, JobStatus, JobType, Task, TaskStatus, DocumentRow, MappedRow}
use bytefetch.Store.Db.{Db}
use bytefetch.Store.Invariant.{IsValid}
use bytefetch.Config.{Config, default_config}
use bytefetch.Url.Net.{Url, UrlPackage}

abbrev pub job_1 : Job
job_1 = record {
  id = 1;
  status = JobStatus.running;
  type = JobType.crawl;
  params = [];
  error = none;
  expires_at = some 50;
  deadline = some 900;
  created_at = 10;
  updated_at = 10;
}

abbrev pub job_2 : Job
job_2 = record job_1 { id = 2; expires_at = some 500 }

abbrev pub task_1 : Task
task_1 = record {
  id = 1;
  job_id = 1;
  requested_url = codes "http://a/";
  final_url = codes "http://a/";
  depth = 0;
  status = TaskStatus.processing;
  error = none;
  processing_started_at = some 20;
  heartbeat_at = some 20;
  attempts = 1;
  created_at = 10;
  updated_at = 20;
}

abbrev pub task_2 : Task
task_2 = record task_1 { id = 2; job_id = 2; status = TaskStatus.failed }

abbrev page : ℕ → Text → DocumentRow
page id url = record {
  id = id;
  document = record {
    job_id = 2;
    requested_url = url;
    final_url = url;
    title = [];
    content_md = codes "text";
    content_raw = codes "text";
    meta = [];
  };
  created_at = id;
}

abbrev pub document_1 : DocumentRow
document_1 = page 1 (codes "b")

abbrev pub document_2 : DocumentRow
document_2 = page 2 (codes "a")

abbrev pub link_1 : MappedRow
link_1 = record {
  id = 1;
  entry = record { job_id = 2; source_url = codes "a"; target_url = codes "b"; depth = 1 };
  created_at = 10;
}

abbrev pub sample : Db
sample = record {
  jobs = job_1 ∷ job_2 ∷ [];
  tasks = task_1 ∷ task_2 ∷ [];
  documents = document_1 ∷ document_2 ∷ [];
  mapped = link_1 ∷ [];
  dedupe = record { canonical_url = codes "http://a/"; last_seen = 5 } ∷ [];
  next_task = 3;
  next_document = 3;
  next_mapped = 2;
}

pub sample-IsValid : IsValid sample
sample-IsValid = record {
  jobs_distinct = ((omega arith, tt), (tt, tt));
  tasks_valid = (
    (((omega arith, λ same_key. omega arith), tt), (tt, tt)),
    ((omega arith, refl), ((omega arith, refl), tt)),
  );
  documents_valid = (
    ((omega arith, tt), (tt, tt)),
    ((omega arith, omega arith, refl), ((omega arith, omega arith, refl), tt)),
  );
  mapped_valid = ((tt, tt), ((omega arith, omega arith, refl), tt));
  dedupe_distinct = (tt, tt);
  next_positive = (omega arith, omega arith);
}

abbrev pub config : Config
config = default_config []

-- A package for URLs of the scheme `http` with nothing after the host.
abbrev pub http_url : Text → Url
http_url host = record {
  scheme = codes "http";
  opaque = [];
  user = none;
  host = host;
  path = [];
  raw_path = [];
  omit_host = false;
  force_query = false;
  raw_query = [];
  fragment = [];
}

abbrev pub before_colon : Text → Text
before_colon [] = []
before_colon (c ∷ s) = let rest = before_colon s in if c == b':' then [] else c ∷ rest

abbrev pub hosts_only : UrlPackage
hosts_only = record {
  parse = λ s. if is_empty s then none else some (http_url s);
  to_text = λ u. u.host;
  hostname = λ u. before_colon u.host;
  resolve_reference = λ base u. u;
}
