-- ===== src/ReturnPath.antt =====
-- handler.go, safeReturnPathFrom and getOriginalPath: the path to which a verified browser is sent.
pub mod Parts
pub mod Normal
pub mod Safety
use caddy_protector.Base.{
  ℕ, ◌≡◌, refl, Bool, not, ◌&&◌, ◌||◌, Option, none, some, [], ◌∷◌, ◌++◌, ltb, ◌==◌, if◌then◌else◌,
  is_nil, length,
}
use caddy_protector.Text.{Bytes, codes, same, has_prefix, Pieces, cut, last_byte}
use caddy_protector.Text.Segments.{slash, dot, clean}

abbrev pub question : ℕ
question = b'?'

abbrev pub root : Bytes
root = codes "/"

-- hasTrailingSlash
abbrev pub has_trailing_slash : Bytes → Bool
has_trailing_slash raw_path = ltb 1 (length raw_path) && last_byte raw_path == slash

-- The slash that path.Clean removed is put back.
abbrev pub with_slash : Bool → Bytes → Bytes
with_slash trailing clean_path =
    if trailing && not (last_byte clean_path == slash) then clean_path ++ slash ∷ [] else clean_path

abbrev pub with_query : Pieces → Bytes → Bytes
with_query parts path = if parts.found then path ++ question ∷ parts.after else path

abbrev pub clean_pieces : Pieces → Bytes
clean_pieces parts =
    let clean_path = clean parts.before in
    if same clean_path dot || not (has_prefix clean_path root)
    then root
    else with_query parts (with_slash (has_trailing_slash parts.before) clean_path)

unfoldable pub safe_return_path_from : Bytes → Bytes
safe_return_path_from return_path =
    if is_nil return_path
      || not (has_prefix return_path root)
      || has_prefix return_path (codes "//")
    then root
    else clean_pieces (cut return_path question)

-- `orig_uri` is the replacer's value of http.request.orig_uri, if there is a replacer and the value
-- is a string; `request_uri` is r.URL.RequestURI().
unfoldable pub get_original_path : Option Bytes → Bytes → Bytes
get_original_path (some orig_uri) request_uri =
    if not (is_nil orig_uri) && has_prefix orig_uri root
    then safe_return_path_from orig_uri
    else safe_return_path_from request_uri
get_original_path none request_uri = safe_return_path_from request_uri

return_path_tests :
    (safe_return_path_from (codes "//evil.example/x") ≡ codes "/")
    × (safe_return_path_from (codes "/a/../b/?q=/../x?y") ≡ codes "/b/?q=/../x?y")
    × (safe_return_path_from (codes "/..//evil") ≡ codes "/evil")
    × (safe_return_path_from (codes "https://x") ≡ codes "/")
unfolding safe_return_path_from cut clean
return_path_tests = (refl, refl, refl, refl)
