-- ===== src/Extract.antt =====
-- internal/extract/extract.go: what is read in a page, over the package goquery.
pub mod Read
use bytefetch.Prelude.{
  ℕ, Text, codes, is_empty, to_lower, trim_space, contains, Bool, true, false, not, Option, none,
  some, List, [], ◌∷◌, if◌then◌else◌,
}
use bytefetch.Json.{lookup, insert}
use bytefetch.Exec.{Result, ok, err, extract_failed}
use bytefetch.Worker.Pages.{Extracted}

-- An element `a` with an attribute `href`.
pub record Anchor : Type 0 where
  pub href : Text
  pub rel : Option Text

-- goquery: a document is read from its bytes; `remove` takes the elements of a selector away; the
-- others are the text of the first element of a selector, an attribute of it, the anchors of the
-- document in their order, and the HTML in the first element of a selector.
pub record Goquery (Doc : Type 0) : Type 0 where
  pub parse : Text → Result Doc
  pub remove : Text → Doc → Doc
  pub first_text : Text → Doc → Text
  pub attr : Text → Text → Doc → Option Text
  pub anchors : Doc → List Anchor
  pub html : Text → Doc → Text

abbrev pub Meta : Type 0
Meta = List (Text × Text)

-- `if v, ok := …Attr(…); ok { meta[key] = f(v) }`
abbrev pub set_from : Text → (Text → Text) → Option Text → Meta → Meta
set_from key f none meta = meta
set_from key f (some v) meta = insert key (f v) meta

abbrev pub text_or_empty : Option Text → Text
text_or_empty none = []
text_or_empty (some v) = v

-- `meta[key]`
abbrev pub meta_of : Text → Meta → Text
meta_of key meta = text_or_empty (lookup key meta)

-- `strings.Contains(strings.ToLower(rel), "nofollow")` where there is a `rel`.
unfoldable pub rel_nofollow : Option Text → Bool
rel_nofollow none = false
rel_nofollow (some rel) = contains (to_lower rel) (codes "nofollow")

-- The loop over the anchors.
unfoldable pub anchor_links : List Anchor → List Text
anchor_links [] = []
anchor_links (a ∷ rows) =
    let rest = anchor_links rows in if rel_nofollow a.rel then rest else trim_space a.href ∷ rest

module _ {Doc : Type 0} (goquery : Goquery Doc) where
  -- The metadata before any tag is read; `created_at` is the time, formatted.
  unfoldable pub first_meta : Text → Text → Meta
  first_meta created_at title =
      (codes "site_name", [])
      ∷ (codes "title", title)
      ∷ (codes "description", [])
      ∷ (codes "language", [])
      ∷ (codes "created_at", created_at)
      ∷ []

  unfoldable pub with_description : Doc → Meta → Meta
  with_description doc meta =
      set_from (codes "description") trim_space
        (goquery.attr (codes "meta[name=\"description\"]") (codes "content") doc) meta

  unfoldable pub with_og_description : Doc → Meta → Meta
  with_og_description doc meta =
      if is_empty (meta_of (codes "description") meta)
      then set_from (codes "description") trim_space
          (goquery.attr (codes "meta[property=\"og:description\"]") (codes "content") doc) meta
      else meta

  unfoldable pub with_robots : Doc → Meta → Meta
  with_robots doc meta =
      set_from (codes "robots") (λ v. to_lower (trim_space v))
        (goquery.attr (codes "meta[name=\"robots\"]") (codes "content") doc) meta

  unfoldable pub with_site_name : Doc → Meta → Meta
  with_site_name doc meta =
      set_from (codes "site_name") trim_space
        (goquery.attr (codes "meta[property=\"og:site_name\"]") (codes "content") doc) meta

  unfoldable pub with_language : Doc → Meta → Meta
  with_language doc meta =
      set_from (codes "language") trim_space (goquery.attr (codes "html") (codes "lang") doc) meta

  unfoldable pub read_meta : Text → Text → Doc → Meta
  read_meta created_at title doc = with_language doc (
      with_site_name doc (
        with_robots doc
          (with_og_description doc (with_description doc (first_meta created_at title)))))

  abbrev pub set_title : Option Text → Text → Meta → Text × Meta
  set_title none title meta = (title, meta)
  set_title (some v) title meta = (trim_space v, insert (codes "title") (trim_space v) meta)

  -- The title of Open Graph, where there is no other.
  unfoldable pub with_og_title : Doc → Text → Meta → Text × Meta
  with_og_title doc title meta =
      if is_empty title
      then set_title (goquery.attr (codes "meta[property=\"og:title\"]") (codes "content") doc)
          title meta
      else (title, meta)

  unfoldable pub read_document : Text → Doc → Extracted
  read_document created_at doc =
      let title = trim_space (goquery.first_text (codes "title") doc) in
      let found = with_og_title doc title (read_meta created_at title doc) in
      record {
        title = found.0;
        html = trim_space (goquery.html (codes "body") doc);
        meta = found.1;
        links = anchor_links (goquery.anchors doc);
      }

  abbrev pub read_parsed : Text → Result Doc → Result Extracted
  read_parsed created_at (err e) = err e
  read_parsed created_at (ok doc) =
      ok (read_document created_at (goquery.remove (codes "script,style,nav,footer") doc))

  -- `Extract`, without the fields `URL` and `Text`, which nothing reads.
  unfoldable pub extract : Text → Text → Result Extracted
  extract created_at body = read_parsed created_at (goquery.parse body)
