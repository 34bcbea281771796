-- ===== src/Url/Path/Rooted.antt =====
-- `cleanPath` on the paths of URLs with a host: they are empty or begin with a slash.
use bytefetch.Prelude.{
  ℕ, suc, ◌-◌, ◌≡◌, refl, sym, ap, ◌∙◌, inl, inr, Text, same, same_iff, to_lower, has_suffix,
  trim_suffix, true, false, List, [], ◌∷◌, ◌++◌, length, if◌then◌else◌, Bool-cases, All, All-map,
  arith,
}
use bytefetch.Url.Path.{
  slash, dot, root, split_slash, join_slash, resolve_parts, clean, is_index, trim_slash, clean_path,
}
use bytefetch.Url.Path.Clean.{
  NoSlash, IsPlain, split_slash-NoSlash, resolve_parts-IsPlain, resolve_parts_plain,
  split_slash-join_slash,
}

-- A slash, and plain parts with one slash between each two.
abbrev pub IsCleanRooted : Text → Type 0
IsCleanRooted p = (parts : List Text) × (p ≡ slash ∷ join_slash parts) × All IsPlain parts

clean-IsCleanRooted : (s : Text) → IsCleanRooted (clean (slash ∷ s))
unfolding clean
clean-IsCleanRooted s = (
  resolve_parts true [] (split_slash s),
  refl,
  resolve_parts-IsPlain [] (split_slash s) tt (split_slash-NoSlash s),
)

clean_rooted :
    (parts : List Text)
    → All IsPlain parts
    → clean (slash ∷ join_slash parts) ≡ slash ∷ join_slash parts
unfolding clean
clean_rooted [] h = refl
clean_rooted (p ∷ ps) h =
    ap (λ qs. slash ∷ join_slash qs)
      (ap (resolve_parts true []) (split_slash-join_slash p ps (All-map (λ q k. k.3) (p ∷ ps) h))
        ∙ resolve_parts_plain true [] (p ∷ ps) h)

ends_in_slash-cons : (c d : ℕ) (s : Text) → has_suffix (c ∷ d ∷ s) root ≡ has_suffix (d ∷ s) root
unfolding has_suffix
ends_in_slash-cons c d s =
    let two : suc (suc (length s)) - 1 ≡ suc (length s) = omega arith in
    let one : suc (length s) - 1 ≡ length s = omega arith in rw (two, one) (ground arith)

ends_in_slash-append :
    (p : Text) (d : ℕ) (s : Text) → has_suffix (p ++ d ∷ s) root ≡ has_suffix (d ∷ s) root
ends_in_slash-append [] d s = refl
ends_in_slash-append (c ∷ []) d s = ends_in_slash-cons c d s
ends_in_slash-append (c ∷ e ∷ p) d s =
    ends_in_slash-cons c e (p ++ d ∷ s) ∙ ends_in_slash-append (e ∷ p) d s

NoSlash-end : (d : ℕ) (s : Text) → NoSlash (d ∷ s) → has_suffix (d ∷ s) root ≡ false
unfolding has_suffix same
NoSlash-end d [] n = ground arith
NoSlash-end d (e ∷ s) n = ends_in_slash-cons d e s ∙ NoSlash-end e s n.1

-- A path that is joined of plain parts does not end in a slash.
join_slash-end :
    (c : ℕ) (p : Text) (ps : List Text)
    → All IsPlain (p ∷ ps)
    → has_suffix (c ∷ join_slash (p ∷ ps)) root ≡ false
unfolding join_slash
join_slash-end c [] ps h = absurd (h.0.0 refl)
join_slash-end c (d ∷ p) [] h = ends_in_slash-cons c d p ∙ NoSlash-end d p h.0.3
join_slash-end c (d ∷ p) (q ∷ ps) h =
    ends_in_slash-append (c ∷ d ∷ p) slash (join_slash (q ∷ ps)) ∙ join_slash-end slash q ps h.1

trim_slash_root : trim_slash (slash ∷ join_slash []) ≡ slash ∷ join_slash []
unfolding trim_slash same join_slash
trim_slash_root = refl

trim_slash_clean :
    (parts : List Text)
    → All IsPlain parts
    → trim_slash (slash ∷ join_slash parts) ≡ slash ∷ join_slash parts
unfolding trim_slash trim_suffix
trim_slash_clean [] h = trim_slash_root
trim_slash_clean (p ∷ ps) h = elim (Bool-cases (same (slash ∷ join_slash (p ∷ ps)) root)) [
  | inl at_root ↦ rw at_root (sym ((same_iff _ root).0 at_root))
  | inr below ↦ rw (below, join_slash-end slash p ps h)
]

not_dot : (s : Text) → same (slash ∷ s) dot ≡ false
unfolding same
not_dot s = refl

trim_slash_at_root : trim_slash root ≡ root
unfolding trim_slash same
trim_slash_at_root = refl

-- The last steps of `cleanPath`: an index file becomes the root, and nothing else changes.
clean_path_lem :
    (c : ℕ) (p : Text) (parts : List Text)
    → clean (c ∷ p) ≡ slash ∷ join_slash parts
    → All IsPlain parts
    → clean_path (c ∷ p)
      ≡ (if is_index (slash ∷ join_slash parts) then root else slash ∷ join_slash parts)
unfolding clean_path
clean_path_lem c p parts e h =
    rw (e, not_dot (join_slash parts))
      (elim (Bool-cases (is_index (slash ∷ join_slash parts))) [
        | inl index ↦ rw index trim_slash_at_root
        | inr file ↦ rw file (trim_slash_clean parts h)
      ])

root_join : slash ∷ join_slash [] ≡ root
unfolding join_slash
root_join = refl

index_root : is_index (slash ∷ join_slash []) ≡ false
unfolding is_index join_slash to_lower same
index_root = refl

-- `cleanPath` of a path from the root is a slash and plain parts with a slash between each two, and
-- no index file; and a second pass changes nothing.
pub clean_path_rooted :
    (s : Text)
    → let p = clean_path (slash ∷ s) in IsCleanRooted p × (is_index p ≡ false) × (clean_path p ≡ p)
clean_path_rooted s =
    let (parts, e, h) = clean-IsCleanRooted s in
    let first = clean_path_lem slash s parts e h in
    elim (Bool-cases (is_index (slash ∷ join_slash parts))) [
      | inl index ↦ settled [] (first ∙ rw index (sym root_join)) tt index_root
      | inr file ↦ settled parts (first ∙ rw file) h file
    ]
  where
    settled :
        (parts : List Text)
        → clean_path (slash ∷ s) ≡ slash ∷ join_slash parts
        → All IsPlain parts
        → is_index (slash ∷ join_slash parts) ≡ false
        → IsCleanRooted (clean_path (slash ∷ s))
          × (is_index (clean_path (slash ∷ s)) ≡ false)
          × (clean_path (clean_path (slash ∷ s)) ≡ clean_path (slash ∷ s))
    settled parts e h file = rw e (
      (parts, refl, h),
      file,
      clean_path_lem slash (join_slash parts) parts (clean_rooted parts h) h ∙ rw file,
    )

clean_path_empty : clean_path [] ≡ root
unfolding clean_path
clean_path_empty = refl

-- The empty path becomes the root, which stays.
pub clean_path_at_root : (clean_path [] ≡ root) × (clean_path root ≡ root)
clean_path_at_root = (
  clean_path_empty,
  ap clean_path (sym root_join)
      ∙ clean_path_lem slash (join_slash []) [] (clean_rooted [] tt) tt
      ∙ rw index_root root_join,
)
