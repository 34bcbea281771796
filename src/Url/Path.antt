-- ===== src/Url/Path.antt =====
-- `path.Clean` of the standard library, by its documented rules, and `cleanPath` of
-- internal/urlutil/urlutil.go.
pub mod Clean
pub mod Rooted
use bytefetch.Prelude.{
  ℕ, Text, codes, same, to_lower, trim_suffix, is_empty, Bool, true, false, ◌||◌, List, [], ◌∷◌,
  ◌++◌, reverse, ◌==◌, if◌then◌else◌,
}

abbrev pub slash : ℕ
slash = 47

abbrev pub dot : Text
dot = 46 ∷ []

abbrev pub dotdot : Text
dotdot = 46 ∷ 46 ∷ []

abbrev pub root : Text
root = slash ∷ []

unfoldable pub cons_head : ℕ → List Text → List Text
cons_head c [] = (c ∷ []) ∷ []
cons_head c (p ∷ ps) = (c ∷ p) ∷ ps

-- The parts between the slashes; there is one more of them than slashes.
unfoldable pub split_slash : Text → List Text
unfolding cons_head
split_slash [] = [] ∷ []
split_slash (c ∷ s) =
    let parts = split_slash s in if c == slash then [] ∷ parts else cons_head c parts

unfoldable pub join_slash : List Text → Text
join_slash [] = []
join_slash (p ∷ []) = p
join_slash (p ∷ q ∷ ps) = p ++ slash ∷ join_slash (q ∷ ps)

-- `..` takes the part before it away; at the root it goes, and at the start of a relative path, or
-- after another `..`, it stays.
unfoldable pub backtrack : Bool → List Text → List Text
backtrack true [] = []
backtrack false [] = dotdot ∷ []
backtrack rooted (p ∷ ps) = if same p dotdot then dotdot ∷ p ∷ ps else ps

-- One part of the path; the stack has the last part at its head.
unfoldable pub push_part : Bool → List Text → Text → List Text
unfolding backtrack
push_part rooted stack part =
    if is_empty part || same part dot
    then stack
    else if same part dotdot
    then backtrack rooted stack
    else part ∷ stack

unfoldable pub resolve_parts : Bool → List Text → List Text → List Text
unfolding push_part
resolve_parts rooted stack [] = reverse stack
resolve_parts rooted stack (part ∷ parts) = resolve_parts rooted (push_part rooted stack part) parts

-- `path.Clean`
unfoldable pub clean : Text → Text
unfolding resolve_parts split_slash join_slash
clean [] = dot
clean (c ∷ s) =
    if c == slash
    then slash ∷ join_slash (resolve_parts true [] (split_slash s))
    else (let cleaned = join_slash (resolve_parts false [] (split_slash (c ∷ s))) in
        if is_empty cleaned then dot else cleaned)

-- "/index.html", "/index.htm" and "/index.php", in any case.
unfoldable pub is_index : Text → Bool
is_index cp =
    let lower = to_lower cp in
    same lower (codes "/index.html")
    || same lower (codes "/index.htm")
    || same lower (codes "/index.php")

unfoldable pub root_if_empty : Text → Text
root_if_empty s = if is_empty s then root else s

unfoldable pub trim_slash : Text → Text
unfolding root_if_empty
trim_slash cp = if same cp root then root else root_if_empty (trim_suffix cp root)

-- `cleanPath`
unfoldable pub clean_path : Text → Text
clean_path [] = root
clean_path (c ∷ p) =
    let cp = clean (c ∷ p) in
    let cp = if same cp dot then root else cp in
    let cp = if is_index cp then root else cp in trim_slash cp
