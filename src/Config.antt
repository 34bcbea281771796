-- ===== src/Config.antt =====
-- internal/config/config.go: the settings, their defaults, and when cleanup runs. A duration is a
-- number of milliseconds, a size a number of bytes, and a setting that may be negative in the source
-- is a natural number: the program treats every negative one as it treats 0, but for the
-- `per_host_limit` of the browser, where `make` panics.
pub mod Size
pub mod Load
use bytefetch.Prelude.{
  ℕ, ◌*◌, Text, codes, same, to_lower, Bool, true, false, ◌&&◌, List, [], ◌∷◌, any, ltb,
  if◌then◌else◌,
}

pub record ServerConfig : Type 0 where
  pub addr : Text

pub record DatabaseConfig : Type 0 where
  pub url : Text
  pub max_open_conns : ℕ
  pub max_idle_conns : ℕ
  pub conn_max_idle : ℕ
  pub conn_max_life : ℕ

pub record HttpConfig : Type 0 where
  pub timeout : ℕ
  pub max_redirects : ℕ
  pub max_body_bytes : ℕ
  pub user_agent : Text

pub record WorkerConfig : Type 0 where
  pub pool_size : ℕ
  pub per_host_limit : ℕ
  pub per_host_rps : ℕ
  pub max_retries : ℕ
  pub backoff_base : ℕ
  pub backoff_max : ℕ
  pub lease_timeout : ℕ
  pub heartbeat_interval : ℕ

pub record JobDefaults : Type 0 where
  pub max_tasks : ℕ
  pub max_depth : ℕ
  pub max_duration : ℕ
  pub max_bytes : ℕ
  pub ttl : ℕ
  pub deadline : ℕ

pub record CrawlConfig : Type 0 where
  pub respect_robots : Bool
  pub robots_fail_open : Bool
  pub respect_nofollow : Bool
  pub crawl_delay_ms : ℕ
  pub strip_query : Bool
  pub block_extensions : List Text
  pub allowed_schemes : List Text
  pub dedupe_cache : Bool
  pub include_sitemaps : Bool
  pub sitemap_url_limit : ℕ
  pub sitemap_max_nested : ℕ

pub record Viewport : Type 0 where
  pub width : ℕ
  pub height : ℕ

pub record BrowserConfig : Type 0 where
  pub enabled : Bool
  pub headless : Bool
  pub pool_size : ℕ
  pub per_host_limit : ℕ
  pub nav_timeout : ℕ
  pub wait_idle_timeout : ℕ
  pub executable_path : Text
  pub user_agent : Text
  pub viewport : Viewport
  pub max_page_lifetime : ℕ

pub record CleanupConfig : Type 0 where
  pub interval : ℕ
  pub enabled : Bool
  pub run_in : List Text
  pub api_interval : ℕ
  pub worker_interval : ℕ

-- `auth` and `ratelimit` are the `enabled` flags of those sections, which nothing reads.
pub record Config : Type 0 where
  pub server : ServerConfig
  pub database : DatabaseConfig
  pub http : HttpConfig
  pub worker : WorkerConfig
  pub job_defaults : JobDefaults
  pub crawl : CrawlConfig
  pub browser : BrowserConfig
  pub auth : Bool
  pub rate_limit : Bool
  pub cleanup : CleanupConfig

abbrev seconds : ℕ → ℕ
seconds n = n * 1000

abbrev minutes : ℕ → ℕ
minutes n = n * 60000

abbrev default_block_extensions : List Text
default_block_extensions =
    codes ".pdf"
    ∷ codes ".jpg"
    ∷ codes ".jpeg"
    ∷ codes ".png"
    ∷ codes ".gif"
    ∷ codes ".webp"
    ∷ codes ".zip"
    ∷ codes ".tar"
    ∷ codes ".gz"
    ∷ codes ".exe"
    ∷ codes ".dmg"
    ∷ codes ".iso"
    ∷ []

-- `applyDefaults`; the database's URL has no default.
unfoldable pub default_config : Text → Config
default_config url = record {
  server = record { addr = codes ":8080" };
  database = record {
    url = url;
    max_open_conns = 10;
    max_idle_conns = 5;
    conn_max_idle = minutes 5;
    conn_max_life = minutes 30;
  };
  http = record {
    timeout = seconds 10;
    max_redirects = 5;
    max_body_bytes = 5 * 1048576;
    user_agent = codes "ByteFetchCrawler/0.1";
  };
  worker = record {
    pool_size = 8;
    per_host_limit = 2;
    per_host_rps = 2;
    max_retries = 3;
    backoff_base = 500;
    backoff_max = seconds 10;
    lease_timeout = seconds 60;
    heartbeat_interval = seconds 10;
  };
  job_defaults = record {
    max_tasks = 5000;
    max_depth = 2;
    max_duration = minutes 15;
    max_bytes = 100 * 1048576;
    ttl = minutes 1440;
    deadline = minutes 15;
  };
  crawl = record {
    respect_robots = true;
    robots_fail_open = true;
    respect_nofollow = false;
    crawl_delay_ms = 0;
    strip_query = true;
    block_extensions = default_block_extensions;
    allowed_schemes = codes "http" ∷ codes "https" ∷ [];
    dedupe_cache = false;
    include_sitemaps = false;
    sitemap_url_limit = 1000;
    sitemap_max_nested = 3;
  };
  browser = record {
    enabled = true;
    headless = true;
    pool_size = 4;
    per_host_limit = 2;
    nav_timeout = seconds 15;
    wait_idle_timeout = seconds 3;
    executable_path = [];
    user_agent = [];
    viewport = record { width = 1280; height = 720 };
    max_page_lifetime = seconds 60;
  };
  auth = false;
  rate_limit = false;
  cleanup = record {
    interval = minutes 60;
    enabled = true;
    run_in = [];
    api_interval = 0;
    worker_interval = 0;
  };
}

-- `strings.EqualFold`, on ASCII.
unfoldable pub equal_fold : Text → Text → Bool
equal_fold s t = same (to_lower s) (to_lower t)

-- `EnabledFor`
unfoldable pub enabled_for : CleanupConfig → Text → Bool
unfolding equal_fold
enabled_for c mode = if c.enabled then runs_in c.run_in else false
  where
    runs_in : List Text → Bool
    runs_in [] = true
    runs_in (m ∷ ms) = any (λ n. equal_fold n mode) (m ∷ ms)

-- `IntervalFor`
unfoldable pub interval_for : CleanupConfig → Text → ℕ
interval_for c mode =
    if same mode (codes "api") && ltb 0 c.api_interval
    then c.api_interval
    else if same mode (codes "worker") && ltb 0 c.worker_interval
    then c.worker_interval
    else c.interval
