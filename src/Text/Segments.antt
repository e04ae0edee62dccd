-- ===== src/Text/Segments.antt =====
-- Texts cut at every slash, and path.Clean of the Go library.
use mathlib.Core.List.{tail}
use caddy_protector.Base.{
  ℕ, ◌≡◌, refl, Bool, true, false, ◌||◌, List, [], ◌∷◌, ◌++◌, reverse, ◌==◌, if◌then◌else◌, is_nil,
}
use caddy_protector.Text.{Bytes, codes, same, has_prefix}

abbrev pub slash : ℕ
slash = b'/'

abbrev pub push : ℕ → List Bytes → List Bytes
push c [] = (c ∷ []) ∷ []
push c (p ∷ ps) = (c ∷ p) ∷ ps

-- The parts between the slashes, the empty ones among them.
unfoldable pub split_slash : Bytes → List Bytes
split_slash [] = [] ∷ []
split_slash (c ∷ s) = let rest = split_slash s in if c == slash then [] ∷ rest else push c rest

unfoldable pub join_slash : List Bytes → Bytes
join_slash [] = []
join_slash (p ∷ []) = p
join_slash (p ∷ q ∷ ps) = p ++ slash ∷ join_slash (q ∷ ps)

abbrev pub dot : Bytes
dot = codes "."

abbrev pub dotdot : Bytes
dotdot = codes ".."

-- Whether a ".." of a path that does not begin with a slash has nothing to remove.
abbrev stays : List Bytes → Bool
stays [] = true
stays (p ∷ ps) = same p dotdot

-- One round of path.Clean; the stack has its top at the head.
unfoldable pub clean_part : Bool → List Bytes → Bytes → List Bytes
clean_part true stack part =
    if is_nil part || same part dot
    then stack
    else if same part dotdot
    then tail stack
    else part ∷ stack
clean_part false stack part =
    if is_nil part || same part dot
    then stack
    else if same part dotdot
    then (if stays stack then part ∷ stack else tail stack)
    else part ∷ stack

unfoldable pub clean_parts : Bool → List Bytes → List Bytes → List Bytes
clean_parts rooted stack [] = reverse stack
clean_parts rooted stack (p ∷ ps) = clean_parts rooted (clean_part rooted stack p) ps

abbrev pub spell : Bool → List Bytes → Bytes
spell true parts = slash ∷ join_slash parts
spell false [] = dot
spell false (p ∷ ps) = join_slash (p ∷ ps)

-- path.Clean
unfoldable pub clean : Bytes → Bytes
unfolding clean_part clean_parts split_slash join_slash
clean s =
    let rooted = has_prefix s (codes "/") in
    if is_nil s then dot else spell rooted (clean_parts rooted [] (split_slash s))

clean_tests :
    (clean (codes "/a/../b//./c/..") ≡ codes "/b")
    × (clean (codes "/../..") ≡ codes "/")
    × (clean (codes "a/../../b/") ≡ codes "../b")
    × (clean (codes "a/..") ≡ codes ".")
unfolding clean
clean_tests = (refl, refl, refl, refl)
