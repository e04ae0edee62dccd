-- ===== src/ReturnPath/Parts.antt =====
-- The parts of a cleaned path.
use mathlib.Core.List.{reverse_aux, reverse-cons, reverse-reverse}
use caddy_protector.Base.{
  ℕ, ◌≡◌, refl, ap, ◌∙◌, ◌≢◌, Bool, true, false, List, [], ◌∷◌, ◌++◌, reverse, append-nil,
  append_assoc, arith, ◌==◌, if◌then◌else◌, is_nil, All, All-append,
}
use caddy_protector.Text.{Bytes, codes, same, has_prefix, last_byte}
use caddy_protector.Text.Segments.{
  slash, push, split_slash, join_slash, dot, dotdot, clean_part, clean_parts,
}

-- A byte that neither ends a part nor a path.
abbrev pub IsInner : ℕ → Type 0
IsInner c = (c ≢ slash) × (c ≢ b'?')

-- Neither empty nor "." nor "..".
abbrev pub IsPlain : Bytes → Type 0
IsPlain p = (is_nil p ≡ false) × (same p dot ≡ false) × (same p dotdot ≡ false)

abbrev pub IsPart : Bytes → Type 0
IsPart p = IsPlain p × All IsInner p

push-IsInner :
    (c : ℕ) (ps : List Bytes) → IsInner c → All (All IsInner) ps → All (All IsInner) (push c ps)
push-IsInner c [] h k = ((h, tt), tt)
push-IsInner c (p ∷ ps) h (k, ks) = ((h, k), ks)

pub split_slash-IsInner : (s : Bytes) → All (λ c. c ≢ b'?') s → All (All IsInner) (split_slash s)
unfolding split_slash
split_slash-IsInner [] h = (tt, tt)
split_slash-IsInner (c ∷ s) (h, hs) =
    ground (arith, split_slash-IsInner s hs, push-IsInner c (split_slash s))

clean_part-IsPart :
    (stack : List Bytes) (p : Bytes)
    → All IsPart stack
    → All IsInner p
    → All IsPart (clean_part true stack p)
unfolding clean_part
clean_part-IsPart [] p h k = ground arith
clean_part-IsPart (q ∷ stack) p h k = ground arith

All-reverse_aux :
    (xs ys : List Bytes) → All IsPart xs → All IsPart ys → All IsPart (reverse_aux xs ys)
All-reverse_aux [] ys hx hy = hy
All-reverse_aux (x ∷ xs) ys (p, hx) hy = All-reverse_aux xs (x ∷ ys) hx (p, hy)

pub clean_parts-IsPart :
    (stack ps : List Bytes)
    → All IsPart stack
    → All (All IsInner) ps
    → All IsPart (clean_parts true stack ps)
unfolding clean_parts
clean_parts-IsPart stack [] h k = All-reverse_aux stack [] h tt
clean_parts-IsPart stack (p ∷ ps) h (k, ks) =
    clean_parts-IsPart (clean_part true stack p) ps (clean_part-IsPart stack p h k) ks

clean_part_of_IsPart :
    (stack : List Bytes) (p : Bytes) → IsPart p → clean_part true stack p ≡ p ∷ stack
unfolding clean_part
clean_part_of_IsPart stack p h = ground arith

-- Parts that are clean already stay, also before an empty last one.
pub clean_parts_of_IsPart :
    (stack ps more : List Bytes)
    → All IsPart ps
    → clean_parts true stack (ps ++ more) ≡ clean_parts true (reverse ps ++ stack) more
unfolding clean_parts
clean_parts_of_IsPart stack [] more h = refl
clean_parts_of_IsPart stack (p ∷ ps) more (h, hs) =
    let step : clean_parts true stack (p ∷ ps ++ more) ≡ clean_parts true (p ∷ stack) (ps ++ more) =
      ap (λ s. clean_parts true s (ps ++ more)) (clean_part_of_IsPart stack p h) in
    let regroup : clean_parts true (reverse ps ++ p ∷ stack) more
        ≡ clean_parts true (reverse (p ∷ ps) ++ stack) more =
      ap (λ s. clean_parts true s more) (simp (reverse-cons, append_assoc)) in
    step ∙ clean_parts_of_IsPart (p ∷ stack) ps more hs ∙ regroup

-- A path without a query: its parts and whether a slash ends it.
abbrev pub render : List Bytes → Bool → Bytes
render [] trailing = slash ∷ []
render (p ∷ ps) trailing = slash ∷ join_slash (p ∷ ps) ++ (if trailing then slash ∷ [] else [])

last_part : Bool → List Bytes
last_part true = [] ∷ []
last_part false = []

split_slash-inner : (p : Bytes) → All IsInner p → split_slash p ≡ p ∷ []
unfolding split_slash
split_slash-inner [] h = refl
split_slash-inner (c ∷ p) (h, hs) = rw (split_slash-inner p hs) (ground arith)

split_slash-append :
    (p s : Bytes) → All IsInner p → split_slash (p ++ slash ∷ s) ≡ p ∷ split_slash s
unfolding split_slash
split_slash-append [] s h = refl
split_slash-append (c ∷ p) s (h, hs) = rw (split_slash-append p s hs) (ground arith)

split_slash-join :
    (p : Bytes) (ps : List Bytes) (trailing : Bool)
    → All (All IsInner) (p ∷ ps)
    → split_slash (join_slash (p ∷ ps) ++ (if trailing then slash ∷ [] else []))
      ≡ p ∷ ps ++ last_part trailing
unfolding join_slash last_part
split_slash-join p [] true (h, hs) = rw (split_slash-append p [] h) (unfold split_slash in refl)
split_slash-join p [] false (h, hs) = rw (append-nil) (split_slash-inner p h)
split_slash-join p (q ∷ ps) trailing (h, hs) =
    rw (append_assoc, split_slash-append p _ h)
      (ap (λ r. p ∷ r) (split_slash-join q ps trailing hs))

All-IsInner : (ps : List Bytes) → All IsPart ps → All (All IsInner) ps
All-IsInner [] h = tt
All-IsInner (p ∷ ps) (h, hs) = (h.1, All-IsInner ps hs)

clean_parts-last_part :
    (ps : List Bytes) (trailing : Bool)
    → All IsPart ps
    → clean_parts true [] (ps ++ last_part trailing) ≡ ps
unfolding last_part
clean_parts-last_part ps trailing h =
    clean_parts_of_IsPart [] ps (last_part trailing) h ∙ finish trailing
  where
    finish : (t : Bool) → clean_parts true (reverse ps ++ []) (last_part t) ≡ ps
    finish true = unfold clean_parts clean_part in simp (append-nil, reverse-reverse)
    finish false = unfold clean_parts clean_part in simp (append-nil, reverse-reverse)

split_slash-slash : (s : Bytes) → split_slash (slash ∷ s) ≡ [] ∷ split_slash s
unfolding split_slash
split_slash-slash s = refl

clean_parts-nil : (ps : List Bytes) → clean_parts true [] ([] ∷ ps) ≡ clean_parts true [] ps
unfolding clean_parts clean_part
clean_parts-nil ps = refl

-- Cutting a rendered path and cleaning its parts gives them back.
pub clean_parts-render :
    (ps : List Bytes) (trailing : Bool)
    → All IsPart ps
    → clean_parts true [] (split_slash (render ps trailing)) ≡ ps
clean_parts-render [] trailing h = unfold split_slash clean_parts clean_part in refl
clean_parts-render (p ∷ ps) trailing h = rw split_slash-slash (
    rw (split_slash-join p ps trailing (All-IsInner (p ∷ ps) h))
      (clean_parts-nil (p ∷ ps ++ last_part trailing) ∙ clean_parts-last_part (p ∷ ps) trailing h))

-- What stands before a byte does not matter for the last one.
pub last_byte-append : (s : Bytes) (c : ℕ) (t : Bytes) → last_byte (s ++ c ∷ t) ≡ last_byte (c ∷ t)
last_byte-append [] c t = refl
last_byte-append (a ∷ []) c t = refl
last_byte-append (a ∷ b ∷ s) c t = last_byte-append (b ∷ s) c t

last_byte-inner : (c : ℕ) (p : Bytes) → All IsInner (c ∷ p) → (last_byte (c ∷ p) == slash) ≡ false
last_byte-inner c [] (h, _) = ground arith
last_byte-inner c (d ∷ p) (_, h) = last_byte-inner d p h

pub last_byte-join :
    (p : Bytes) (ps : List Bytes)
    → All IsPart (p ∷ ps)
    → (last_byte (slash ∷ join_slash (p ∷ ps)) == slash) ≡ false
unfolding join_slash
last_byte-join [] ps h = cc (h.0.0.0)
last_byte-join (c ∷ p) [] (h, hs) = last_byte-inner c p h.1
last_byte-join (c ∷ p) (q ∷ ps) (h, hs) =
    rw (last_byte-append (c ∷ p) slash (join_slash (q ∷ ps))) (last_byte-join q ps hs)

-- The rest of a rendered path is not another root.
pub not_double-join :
    (p : Bytes) (ps : List Bytes) (s : Bytes)
    → IsPart p
    → has_prefix (slash ∷ join_slash (p ∷ ps) ++ s) (codes "//") ≡ false
unfolding join_slash
not_double-join [] ps s h = cc (h.0.0)
not_double-join (c ∷ p) [] s h = ground arith
not_double-join (c ∷ p) (q ∷ ps) s h = ground arith

abbrev pub NoDots : Bytes → Type 0
NoDots p = (same p dot ≡ false) × (same p dotdot ≡ false)

All-NoDots : (ps : List Bytes) → All IsPart ps → All NoDots ps
All-NoDots [] h = tt
All-NoDots (p ∷ ps) (h, hs) = ((h.0.1, h.0.2), All-NoDots ps hs)

last_part-NoDots : (trailing : Bool) → All NoDots (last_part trailing)
unfolding last_part
last_part-NoDots true = ((refl, refl), tt)
last_part-NoDots false = tt

pub split_slash-render-NoDots :
    (ps : List Bytes) (trailing : Bool)
    → All IsPart ps
    → All NoDots (split_slash (render ps trailing))
split_slash-render-NoDots [] trailing h = unfold split_slash in ((refl, refl), ((refl, refl), tt))
split_slash-render-NoDots (p ∷ ps) trailing h = rw split_slash-slash (
    rw (split_slash-join p ps trailing (All-IsInner (p ∷ ps) h)) (
      (refl, refl),
      All-append NoDots (p ∷ ps) (last_part trailing) (All-NoDots (p ∷ ps) h)
          (last_part-NoDots trailing),
    ))
