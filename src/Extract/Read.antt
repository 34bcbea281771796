-- ===== src/Extract/Read.antt =====
-- internal/extract/extract.go and internal/worker/worker.go: the metadata of a page, and a page that
-- asks not to be followed.
use bytefetch.Prelude.{Text}
use bytefetch.Config.{Config}
use bytefetch.Extract.{
  Goquery, Meta, first_meta, with_description, with_og_description, with_robots, with_site_name,
}

module _ {Doc : Type 0} (goquery : Goquery Doc) where
  module _ (created_at title : Text) (doc : Doc) where
    abbrev described : Meta
    described =
        with_og_description goquery doc
          (with_description goquery doc (first_meta goquery created_at title))

    abbrev with_names : Meta
    with_names = with_site_name goquery doc (with_robots goquery doc described)
