-- ===== src/ReturnPath/Normal.antt =====
-- Every sanitised path has one form, and a path of that form stays as it is.
use caddy_protector.Base.{
  ◌≡◌, refl, sym, ap, ◌∙◌, inl, inr, Bool, true, false, Option, none, some, List, [], ◌∷◌, ◌++◌,
  append-nil, append_assoc, arith, if◌then◌else◌, length-append, All, All-append, Bool-cases,
}
use caddy_protector.Text.{Bytes, codes, has_prefix, Pieces, cut}
use caddy_protector.Text.Cut.{Lacks, cut-before-Lacks, cut-append, cut_of_Lacks}
use caddy_protector.Text.Segments.{slash, split_slash, join_slash, clean_parts, spell, clean}
use caddy_protector.ReturnPath.{
  question, root, has_trailing_slash, with_slash, with_query, clean_pieces, safe_return_path_from,
}
use caddy_protector.ReturnPath.Parts.{
  IsInner, IsPart, render, split_slash-IsInner, clean_parts-IsPart, clean_parts-render,
  last_byte-append, last_byte-join, not_double-join,
}

abbrev pub query : Option Bytes → Bytes
query none = []
query (some q) = question ∷ q

-- The form: clean parts, perhaps a slash at the end, perhaps a query.
pub record Normal : Type 0 where
  pub parts : List Bytes
  pub trailing : Bool
  pub query_text : Option Bytes

abbrev pub spelled : Normal → Bytes
spelled n = render n.parts n.trailing ++ query n.query_text

abbrev pub query_of : Pieces → Option Bytes
query_of p = if p.found then some p.after else none

-- What `safe_return_path_from` makes of an accepted path.
pub normal_of : Bytes → Normal
normal_of s =
    let pieces = cut s question in
    record {
      parts = clean_parts true [] (split_slash pieces.before);
      trailing = has_trailing_slash pieces.before;
      query_text = query_of pieces;
    }

pub normal_of-IsPart : (s : Bytes) → All IsPart (normal_of s).parts
unfolding normal_of
normal_of-IsPart s =
    clean_parts-IsPart [] _ tt (split_slash-IsInner _ (cut-before-Lacks s question))

with_slash-spell :
    (ps : List Bytes) (trailing : Bool)
    → All IsPart ps
    → with_slash trailing (spell true ps) ≡ render ps trailing
with_slash-spell [] true h = unfold join_slash in refl
with_slash-spell [] false h = unfold join_slash in refl
with_slash-spell (p ∷ ps) true h = rw (last_byte-join p ps h)
with_slash-spell (p ∷ ps) false h = sym (append-nil _)

with_query-query_of : (p : Pieces) (path : Bytes) → with_query p path ≡ path ++ query (query_of p)
with_query-query_of p path = elim (Bool-cases p.found) [ inl e ↦ rw e | inr e ↦ rw (e, append-nil) ]

-- The guards pass exactly the paths of one host.
abbrev pub IsAccepted : Bytes → Type 0
IsAccepted s = (has_prefix s root ≡ true) × (has_prefix s (codes "//") ≡ false)

clean-rooted :
    (s : Bytes) → clean (slash ∷ s) ≡ spell true (clean_parts true [] (split_slash (slash ∷ s)))
clean-rooted s = unfold clean in refl

cut-slash : (s : Bytes) → (cut (slash ∷ s) question).before ≡ slash ∷ (cut s question).before
cut-slash s = unfold cut in refl

clean_pieces_step :
    (p : Pieces) (ps : List Bytes)
    → clean p.before ≡ spell true ps
    → clean_pieces p ≡ with_query p (with_slash (has_trailing_slash p.before) (spell true ps))
clean_pieces_step p ps e = rw e

clean_pieces-cut :
    (s : Bytes) → clean_pieces (cut (slash ∷ s) question) ≡ spelled (normal_of (slash ∷ s))
unfolding normal_of
clean_pieces-cut s =
    clean_pieces_step pieces parts clean_before
    ∙ with_query-query_of pieces _
    ∙ ap (λ t. t ++ query (query_of pieces))
        (with_slash-spell parts (has_trailing_slash pieces.before) (normal_of-IsPart (slash ∷ s)))
  where
    pieces : Pieces
    pieces = cut (slash ∷ s) question

    parts : List Bytes
    parts = clean_parts true [] (split_slash pieces.before)

    clean_before : clean pieces.before ≡ spell true parts
    clean_before = rw (cut-slash s) (clean-rooted _)

safe-slash :
    (s : Bytes)
    → has_prefix s root ≡ false
    → safe_return_path_from (slash ∷ s) ≡ clean_pieces (cut (slash ∷ s) question)
unfolding safe_return_path_from
safe-slash s h = rw h

pub safe_of_IsAccepted :
    (s : Bytes) → IsAccepted s → safe_return_path_from s ≡ spelled (normal_of s)
safe_of_IsAccepted [] h = cc (h.0)
safe_of_IsAccepted (c ∷ s) h =
    let e : c ≡ slash = ground arith in
    let k : has_prefix s root ≡ false = ground arith in rw e (safe-slash s k ∙ clean_pieces-cut s)

pub safe_of_refused : (s : Bytes) → ¬ (IsAccepted s) → safe_return_path_from s ≡ root
unfolding safe_return_path_from
safe_of_refused [] h = refl
safe_of_refused (c ∷ s) h = elim (Bool-cases (has_prefix (c ∷ s) root)) [
  | inr e ↦ rw e
  | inl e ↦ elim (Bool-cases (has_prefix (c ∷ s) (codes "//"))) [
    | inl d ↦ rw (e, d)
    | inr d ↦ absurd (h (e, d))
  ]
]

-- A spelled form is accepted, and it is read back as itself.
pub spelled-IsAccepted : (n : Normal) → All IsPart n.parts → IsAccepted (spelled n)
spelled-IsAccepted n h = go n.parts n.trailing n.query_text h
  where
    go :
        (ps : List Bytes) (t : Bool) (q : Option Bytes)
        → All IsPart ps
        → IsAccepted (render ps t ++ query q)
    go [] t none h = (refl, refl)
    go [] t (some q) h = (refl, refl)
    go (p ∷ ps) t q (h, hs) = (refl, rw append_assoc (not_double-join p ps _ h))

All-Lacks : (p : Bytes) → All IsInner p → Lacks question p
All-Lacks [] h = tt
All-Lacks (c ∷ p) (h, hs) = (h.1, All-Lacks p hs)

join_slash-Lacks :
    (p : Bytes) (ps : List Bytes) → All IsPart (p ∷ ps) → Lacks question (join_slash (p ∷ ps))
unfolding join_slash
join_slash-Lacks p [] (h, hs) = All-Lacks p h.1
join_slash-Lacks p (q ∷ ps) (h, hs) =
    All-append _ p (slash ∷ join_slash (q ∷ ps)) (All-Lacks p h.1)
      ((omega arith), join_slash-Lacks q ps hs)

pub render-Lacks : (ps : List Bytes) (t : Bool) → All IsPart ps → Lacks question (render ps t)
render-Lacks [] t h = omega arith
render-Lacks (p ∷ ps) true h = (
  (omega arith),
  All-append _ (join_slash (p ∷ ps)) (slash ∷ []) (join_slash-Lacks p ps h) (omega arith),
)
render-Lacks (p ∷ ps) false h =
    ((omega arith), All-append _ (join_slash (p ∷ ps)) [] (join_slash-Lacks p ps h) tt)

has_trailing_slash-render :
    (p : Bytes) (ps : List Bytes) (t : Bool)
    → All IsPart (p ∷ ps)
    → has_trailing_slash (render (p ∷ ps) t) ≡ t
has_trailing_slash-render p ps true h = ground (
  arith,
  last_byte-append (slash ∷ join_slash (p ∷ ps)) slash [],
  length-append (join_slash (p ∷ ps)) (slash ∷ []),
)
has_trailing_slash-render p ps false h = rw append-nil (ground (arith, last_byte-join p ps h))

pub pieces_of : Bytes → Option Bytes → Pieces
pieces_of p none = record { before = p; after = []; found = false }
pieces_of p (some q) = record { before = p; after = q; found = true }

pub cut-query :
    (p : Bytes) (q : Option Bytes) → Lacks question p → cut (p ++ query q) question ≡ pieces_of p q
unfolding pieces_of
cut-query p none h = rw append-nil (cut_of_Lacks p question h)
cut-query p (some q) h = cut-append p q question h

abbrev spell_pieces : Pieces → Bytes
spell_pieces p =
    render (clean_parts true [] (split_slash p.before)) (has_trailing_slash p.before)
    ++ query (query_of p)

spell_pieces-pieces_of :
    (ps : List Bytes) (t : Bool) (q : Option Bytes)
    → All IsPart ps
    → spell_pieces (pieces_of (render ps t) q) ≡ render ps t ++ query q
unfolding pieces_of
spell_pieces-pieces_of [] t none h = rw (clean_parts-render [] t h)
spell_pieces-pieces_of [] t (some q) h = rw (clean_parts-render [] t h)
spell_pieces-pieces_of (p ∷ ps) t none h =
    rw (clean_parts-render (p ∷ ps) t h, has_trailing_slash-render p ps t h)
spell_pieces-pieces_of (p ∷ ps) t (some q) h =
    rw (clean_parts-render (p ∷ ps) t h, has_trailing_slash-render p ps t h)

-- The form of a spelled form spells the same text.
pub spelled-normal_of :
    (n : Normal) → All IsPart n.parts → spelled (normal_of (spelled n)) ≡ spelled n
unfolding normal_of
spelled-normal_of n h =
    ap spell_pieces
      (cut-query (render n.parts n.trailing) n.query_text (render-Lacks n.parts n.trailing h))
    ∙ spell_pieces-pieces_of n.parts n.trailing n.query_text h

pub cut-spelled :
    (n : Normal)
    → All IsPart n.parts
    → cut (spelled n) question ≡ pieces_of (render n.parts n.trailing) n.query_text
cut-spelled n h =
    cut-query (render n.parts n.trailing) n.query_text (render-Lacks n.parts n.trailing h)

pub query_of-pieces_of : (p : Bytes) (q : Option Bytes) → query_of (pieces_of p q) ≡ q
unfolding pieces_of
query_of-pieces_of p none = refl
query_of-pieces_of p (some q) = refl

pub before-pieces_of : (p : Bytes) (q : Option Bytes) → (pieces_of p q).before ≡ p
unfolding pieces_of
before-pieces_of p none = refl
before-pieces_of p (some q) = refl

pub query_text-normal_of : (s : Bytes) → (normal_of s).query_text ≡ query_of (cut s question)
unfolding normal_of
query_text-normal_of s = refl
