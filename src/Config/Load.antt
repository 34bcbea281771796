-- ===== src/Config/Load.antt =====
-- internal/config/config.go: `Load`. Reading the file and decoding the settings is viper's.
use bytefetch.Prelude.{Text, is_empty, Option, none, some, if◌then◌else◌}
use bytefetch.Config.{Config}

-- What `ReadInConfig` gives: no file, an error, or a file that was read.
pub data ConfigFile : Type 0 where
  missing unreadable found : ConfigFile

abbrev pub with_url : Config → Text → Config
with_url cfg url = record cfg { database = record cfg.database { url = url } }

-- The address of the database, from the environment where the settings have none.
abbrev pub url_or : Text → Text → Text
url_or env url = if is_empty url then env else url

abbrev pub checked_url : Config → Text → Option Config
checked_url cfg url = if is_empty url then none else some (with_url cfg url)

abbrev pub decoded : Text → Option Config → Option Config
decoded env none = none
decoded env (some cfg) = checked_url cfg (url_or env cfg.database.url)

-- `Load`: `settings` is what the decoder makes of the settings, and `env` the variable
-- `DATABASE_URL`. `none` is an error.
unfoldable pub load : ConfigFile → Option Config → Text → Option Config
load missing settings env = decoded env settings
load unreadable settings env = none
load found settings env = decoded env settings
