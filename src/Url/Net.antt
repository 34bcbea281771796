-- ===== src/Url/Net.antt =====
-- The type `URL` of the package `net/url`, and the functions over it that the program calls.
use bytefetch.Prelude.{Text, Bool, Option}

-- `path` is the decoded form, `raw_path` the encoded one where that is not the default encoding,
-- `user` what stands before the `@` of the authority.
pub record Url : Type 0 where
  pub scheme : Text
  pub opaque : Text
  pub user : Option Text
  pub host : Text
  pub path : Text
  pub raw_path : Text
  pub omit_host : Bool
  pub force_query : Bool
  pub raw_query : Text
  pub fragment : Text

-- `url.Parse`, with `none` for its error, and the methods `String`, `Hostname` and
-- `ResolveReference`.
pub record UrlPackage : Type 0 where
  pub parse : Text → Option Url
  pub to_text : Url → Text
  pub hostname : Url → Text
  pub resolve_reference : Url → Url → Url
