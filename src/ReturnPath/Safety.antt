-- ===== src/ReturnPath/Safety.antt =====
-- What safeReturnPathFrom promises: the browser stays on its host, and a second pass changes nothing.
use caddy_protector.Base.{
  ◌≡◌, ap, ◌∙◌, ◌⊎◌, inl, inr, true, false, Option, none, some, [], All, Bool-cases, not, ◌&&◌,
  is_nil,
}
use caddy_protector.Text.{Bytes, codes, has_prefix, cut}
use caddy_protector.Text.Segments.{split_slash}
use caddy_protector.ReturnPath.{question, root, safe_return_path_from, get_original_path}
use caddy_protector.ReturnPath.Parts.{IsPart, render, NoDots, split_slash-render-NoDots}
use caddy_protector.ReturnPath.Normal.{
  Normal, spelled, normal_of, normal_of-IsPart, IsAccepted, safe_of_IsAccepted, safe_of_refused,
  spelled-IsAccepted, spelled-normal_of, cut-spelled, query_of, query_of-pieces_of,
  before-pieces_of, query_text-normal_of,
}

abbrev root_normal : Normal
root_normal = record { parts = []; trailing = false; query_text = none }

IsAccepted-cases : (s : Bytes) → IsAccepted s ⊎ ¬ (IsAccepted s)
IsAccepted-cases s = elim (Bool-cases (has_prefix s root)) [
  | inr e ↦ inr (λ h. cc)
  | inl e ↦ elim (Bool-cases (has_prefix s (codes "//"))) [
    | inl d ↦ inr (λ h. cc)
    | inr d ↦ inl (e, d)
  ]
]

-- Every result is spelled from clean parts.
safe-normal :
    (s : Bytes) → (n : Normal) × All IsPart n.parts × (safe_return_path_from s ≡ spelled n)
safe-normal s = elim (IsAccepted-cases s) [
  | inl h ↦ (normal_of s, normal_of-IsPart s, safe_of_IsAccepted s h)
  | inr h ↦ (root_normal, tt, safe_of_refused s h)
]

-- A safe return path is its own safe return path.
pub safe_return_path_from_idempotent :
    (s : Bytes) → safe_return_path_from (safe_return_path_from s) ≡ safe_return_path_from s
safe_return_path_from_idempotent s =
    let (n, h, e) = safe-normal s in
    rw e (safe_of_IsAccepted (spelled n) (spelled-IsAccepted n h) ∙ spelled-normal_of n h)

-- A reference to a path of the same host, from which no ".." leads elsewhere.
pub record IsLocal (r : Bytes) : Type 0 where
  pub absolute : has_prefix r root ≡ true
  pub no_host : has_prefix r (codes "//") ≡ false
  pub no_dots : All NoDots (split_slash (cut r question).before)

spelled-IsLocal : (n : Normal) → All IsPart n.parts → IsLocal (spelled n)
spelled-IsLocal n h = record {
  absolute = (spelled-IsAccepted n h).0;
  no_host = (spelled-IsAccepted n h).1;
  no_dots =
      rw
        (ap (λ p. p.before) (cut-spelled n h)
          ∙ before-pieces_of (render n.parts n.trailing) n.query_text)
        (split_slash-render-NoDots n.parts n.trailing h);
}

-- The return path, whatever it is made from, begins with one slash and not with two, and its path
-- has no segment that is a dot or two dots.
pub safe_return_path_from-IsLocal : (s : Bytes) → IsLocal (safe_return_path_from s)
safe_return_path_from-IsLocal s = let (n, h, e) = safe-normal s in rw e (spelled-IsLocal n h)

pub get_original_path-IsLocal :
    (orig_uri : Option Bytes) (request_uri : Bytes)
    → IsLocal (get_original_path orig_uri request_uri)
unfolding get_original_path
get_original_path-IsLocal none request_uri = safe_return_path_from-IsLocal request_uri
get_original_path-IsLocal (some orig_uri) request_uri =
    elim (Bool-cases (not (is_nil orig_uri) && has_prefix orig_uri root)) [
      | inl e ↦ rw e (safe_return_path_from-IsLocal orig_uri)
      | inr e ↦ rw e (safe_return_path_from-IsLocal request_uri)
    ]

-- The safe return path of a path that begins with one slash has the query of that path, byte for
-- byte.
pub safe_return_path_from-query :
    (s : Bytes)
    → has_prefix s root ≡ true
    → has_prefix s (codes "//") ≡ false
    → query_of (cut (safe_return_path_from s) question) ≡ query_of (cut s question)
safe_return_path_from-query s h k =
    let n = normal_of s in
    rw (safe_of_IsAccepted s (h, k)) (
      ap query_of (cut-spelled n (normal_of-IsPart s))
      ∙ query_of-pieces_of (render n.parts n.trailing) n.query_text
      ∙ query_text-normal_of s)
