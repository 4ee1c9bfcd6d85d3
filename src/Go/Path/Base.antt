-- ===== src/Go/Path/Base.antt =====
-- What `path.Base` gives.
use mathlib.Core.Option.{or_else}
use skopeo.Prelude.{
  ◌≡◌, refl, ◌⊎◌, inl, inr, false, Bool-cases, Option, none, some, [], ◌∷◌, ◌++◌, eqb, arith,
  if◌then◌else◌,
}
use skopeo.Prelude.Texts.{Text, is_blank}
use skopeo.Prelude.Texts.Laws.{Lacks}
use skopeo.Go.Path.{slash, strip_slashes, after_last, or_whole, last_of, base}

-- What `after_last` found has no slash.
abbrev Found : Text → Option Text → Type 0
Found s none = Lacks b'/' s
Found s (some t) = Lacks b'/' t

after_last-Found : (s : Text) → Found s (after_last s)
unfolding after_last or_else
after_last-Found [] = tt
after_last-Found (c ∷ s) = found (after_last s) (after_last-Found s)
  where
    found :
        (o : Option Text)
        → Found s o
        → Found (c ∷ s) (or_else o (if eqb c b'/' then some s else none))
    found none h = elim (Bool-cases (eqb c b'/')) [ inl p ↦ rw p h | inr p ↦ rw p (p, h) ]
    found (some t) h = h

last_of-Lacks : (s : Text) → Lacks b'/' (last_of s)
last_of-Lacks s = of_found (after_last s) (after_last-Found s)
  where
    of_found : (o : Option Text) → Found s o → Lacks b'/' (or_whole s o)
    of_found none h = h
    of_found (some t) h = h

-- The base of a path is a slash, or has no slash.
pub base-Lacks : (s : Text) → (base s ≡ slash) ⊎ Lacks b'/' (base s)
unfolding base
base-Lacks s = elim (Bool-cases (is_blank s)) [
  | inl p ↦ rw p (inr (refl, tt))
  | inr p ↦ elim (Bool-cases (is_blank (last_of (strip_slashes s)))) [
    | inl q ↦ rw (p, q) (inl refl)
    | inr q ↦ rw (p, q) (inr (last_of-Lacks (strip_slashes s)))
  ]
]

strip_slashes-of_Lacks : (t : Text) → Lacks b'/' t → strip_slashes t ≡ t
unfolding strip_slashes
strip_slashes-of_Lacks [] h = refl
strip_slashes-of_Lacks (c ∷ t) (p, h) = rw (strip_slashes-of_Lacks t h) (ground arith)

append_not_blank : (s t : Text) → is_blank t ≡ false → is_blank (s ++ t) ≡ false
append_not_blank [] t h = h
append_not_blank (c ∷ s) t h = refl

strip_slashes-append :
    (s t : Text) → is_blank t ≡ false → strip_slashes t ≡ t → strip_slashes (s ++ t) ≡ s ++ t
unfolding strip_slashes
strip_slashes-append [] t b h = h
strip_slashes-append (c ∷ s) t b h = rw (strip_slashes-append s t b h, append_not_blank s t b)

after_last-of_Lacks : (t : Text) → Lacks b'/' t → after_last t ≡ none
unfolding after_last or_else
after_last-of_Lacks [] h = refl
after_last-of_Lacks (c ∷ t) (p, h) = rw (after_last-of_Lacks t h, p)

after_last-append : (s t : Text) → Lacks b'/' t → after_last (s ++ b'/' ∷ t) ≡ some t
unfolding after_last or_else
after_last-append [] t h = rw (after_last-of_Lacks t h)
after_last-append (c ∷ s) t h = rw (after_last-append s t h)

strip_slashes-rooted :
    (t : Text) → is_blank t ≡ false → Lacks b'/' t → strip_slashes (b'/' ∷ t) ≡ b'/' ∷ t
unfolding strip_slashes
strip_slashes-rooted t b h = rw (strip_slashes-of_Lacks t h, b)

-- The base of a path with a last element is that element.
pub base-append : (s t : Text) → is_blank t ≡ false → Lacks b'/' t → base (s ++ b'/' ∷ t) ≡ t
unfolding base
base-append s t b h =
    rw
      (
        append_not_blank s (b'/' ∷ t) refl,
        strip_slashes-append s (b'/' ∷ t) refl (strip_slashes-rooted t b h),
        after_last-append s t h,
      )
      (rw b)

pub base_of_Lacks : (t : Text) → is_blank t ≡ false → Lacks b'/' t → base t ≡ t
unfolding base
base_of_Lacks t b h = rw (b, strip_slashes-of_Lacks t h, after_last-of_Lacks t h) (rw b)
