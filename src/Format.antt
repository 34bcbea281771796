-- ===== src/Format.antt =====
-- internal/format/format.go: the content of a page in a format. The converter from HTML to Markdown
-- and the function that strips Markdown are third-party packages.
use bytefetch.Prelude.{
  Text, codes, is_empty, same, to_lower, trim_space, contains, not, ◌&&◌, ◌∷◌, ◌++◌, if◌then◌else◌,
}
use bytefetch.Exec.{Result, ok, err, unsupported_format}
use bytefetch.Worker.Pages.{Extracted}

-- `md.NewConverter(…).ConvertString` and `stripmd.Strip`.
pub record MarkdownPackages : Type 0 where
  pub convert : Text → Result Text
  pub strip : Text → Text

module _ (packages : MarkdownPackages) (ext : Extracted) where
  abbrev pub with_title : Text → Text
  with_title text =
      if not (is_empty ext.title) && not (contains text ext.title)
      then codes "# " ++ ext.title ++ 10 ∷ 10 ∷ text
      else text

  abbrev pub titled : Result Text → Result Text
  titled (ok text) = ok (with_title (trim_space text))
  titled (err e) = err e

  -- `markdownFromExtract`
  unfoldable pub markdown_from_extract : Result Text
  markdown_from_extract = titled (packages.convert ext.html)

  abbrev pub stripped : Result Text → Result Text
  stripped (ok text) = ok (trim_space (packages.strip text))
  stripped (err e) = err e

  -- `FormatContent`
  unfoldable pub format_content : Text → Result Text
  format_content format =
      if same (to_lower format) (codes "markdown")
      then markdown_from_extract
      else if same (to_lower format) (codes "html")
      then ok ext.html
      else if same (to_lower format) (codes "text")
      then stripped markdown_from_extract
      else err (unsupported_format format)
