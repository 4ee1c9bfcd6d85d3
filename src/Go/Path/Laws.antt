-- ===== src/Go/Path/Laws.antt =====
-- What `Base` and `Join` give.
use mathlib.Core.List.{
  foldl, reverse, foldl-append, append_assoc, reverse-append, reverse-cons, reverse-reverse,
  append_cancel_left,
}
use skopeo.Prelude.{
  eqb_iff, Bool-cases, ◌≡◌, ◌≢◌, refl, sym, ◌∙◌, ap, inl, inr, Bool, true, false, List, [], ◌∷◌,
  ◌++◌, eqb, ℕ, arith, if◌then◌else◌,
}
use skopeo.Prelude.Lists.{All, All-append, All-reverse}
use skopeo.Prelude.Texts.{Text, ◌==◌, is_blank}
use skopeo.Prelude.Texts.Laws.{Lacks}
use skopeo.Go.Path.{
  dot, dot_dot, elements, push_head, join_elements, clean_step, is_rooted, clean_elements, clean,
  join, or_dot,
}

elements-cons : (s : Text) → (e : Text) × (es : List Text) × (elements s ≡ e ∷ es)
unfolding elements
elements-cons [] = ([], [], refl)
elements-cons (c ∷ s) = elim (Bool-cases (eqb c b'/')) [
  | inl p ↦ ([], elements s, rw p)
  | inr p ↦ let (e, es, q) = elements-cons s in (c ∷ e, es, rw (p, q))
]

elements-append : (s t : Text) → elements (s ++ b'/' ∷ t) ≡ elements s ++ elements t
unfolding elements
elements-append [] t = refl
elements-append (c ∷ s) t =
    let (e, es, q) = elements-cons s in
    elim (Bool-cases (eqb c b'/')) [
      | inl p ↦ rw (p, elements-append s t)
      | inr p ↦ rw (p, elements-append s t, q)
    ]

join_elements-push_head :
    (c : ℕ) (e : Text) (es : List Text)
    → join_elements (push_head c (e ∷ es)) ≡ c ∷ join_elements (e ∷ es)
unfolding join_elements
join_elements-push_head c e [] = refl
join_elements-push_head c e (f ∷ es) = refl

join_elements-elements : (s : Text) → join_elements (elements s) ≡ s
unfolding elements join_elements
join_elements-elements [] = refl
join_elements-elements (c ∷ s) =
    let (e, es, q) = elements-cons s in
    let ih : join_elements (e ∷ es) ≡ s = rw q at (join_elements-elements s) in
    elim (Bool-cases (eqb c b'/')) [
      | inl p ↦ rw (p, q) (cc ((eqb_iff c b'/').0 p, ih))
      | inr p ↦ rw (p, q) (rw join_elements-push_head (ap (λ t. c ∷ t) ih))
    ]

elements-Lacks : (s : Text) → All (Lacks b'/') (elements s)
unfolding elements
elements-Lacks [] = (tt, tt)
elements-Lacks (c ∷ s) =
    let (e, es, q) = elements-cons s in
    elim (Bool-cases (eqb c b'/')) [
      | inl p ↦ rw p (tt, elements-Lacks s)
      | inr p ↦ rw (p, q) (let (le, les) = (rw q at (elements-Lacks s)) in ((p, le), les))
    ]

elements-of_Lacks : (e : Text) → Lacks b'/' e → elements e ≡ e ∷ []
unfolding elements
elements-of_Lacks [] h = refl
elements-of_Lacks (c ∷ e) (p, h) = rw (p, elements-of_Lacks e h)

elements-join_elements :
    (e : Text) (es : List Text)
    → All (Lacks b'/') (e ∷ es)
    → elements (join_elements (e ∷ es)) ≡ e ∷ es
unfolding join_elements
elements-join_elements e [] (h, _) = elements-of_Lacks e h
elements-join_elements e (f ∷ es) (h, hs) =
    rw (elements-append, elements-of_Lacks e h, elements-join_elements f es hs)

-- An element that `Clean` keeps as it is.
abbrev pub IsPlain : Text → Type 0
IsPlain e = (is_blank e ≡ false) × ((e == dot) ≡ false) × ((e == dot_dot) ≡ false)

foldl-plain :
    (rooted : Bool) (out es : List Text)
    → All IsPlain es
    → foldl (clean_step rooted) out es ≡ reverse es ++ out
unfolding clean_step
foldl-plain rooted out [] h = refl
foldl-plain rooted out (e ∷ es) ((b, d, dd), h) =
    rw (b, d, dd) (foldl-plain rooted (e ∷ out) es h ∙ rw (reverse-cons, append_assoc))

is_rooted-append : (d s : Text) → is_blank d ≡ false → is_rooted (d ++ s) ≡ is_rooted d
is_rooted-append [] s h = cc
is_rooted-append (c ∷ d) s h = refl

-- Plain elements that are joined to a directory stand behind those of the directory.
clean_elements-append :
    (d s : Text)
    → is_blank d ≡ false
    → All IsPlain (elements s)
    → clean_elements (d ++ b'/' ∷ s) ≡ clean_elements d ++ elements s
unfolding clean_elements
clean_elements-append d s nd h =
    rw
      (
        is_rooted-append d (b'/' ∷ s) nd,
        elements-append,
        foldl-append,
        foldl-plain _ _ (elements s) h,
      )
      (rw (reverse-append, reverse-reverse))

clean_step-Lacks :
    (rooted : Bool) (out : List Text) (e : Text)
    → All (Lacks b'/') out
    → Lacks b'/' e
    → All (Lacks b'/') (clean_step rooted out e)
unfolding clean_step
clean_step-Lacks rooted [] e ho he = ground arith
clean_step-Lacks rooted (top ∷ out) e ho he = ground arith

foldl-Lacks :
    (rooted : Bool) (out es : List Text)
    → All (Lacks b'/') out
    → All (Lacks b'/') es
    → All (Lacks b'/') (foldl (clean_step rooted) out es)
foldl-Lacks rooted out [] ho he = ho
foldl-Lacks rooted out (e ∷ es) ho (he, hs) =
    foldl-Lacks rooted (clean_step rooted out e) es (clean_step-Lacks rooted out e ho he) hs

clean_elements-Lacks : (s : Text) → All (Lacks b'/') (clean_elements s)
unfolding clean_elements
clean_elements-Lacks s =
    All-reverse (Lacks b'/') _ (foldl-Lacks (is_rooted s) [] (elements s) tt (elements-Lacks s))

-- `Clean` spells out the elements that it keeps.
abbrev spell : Bool → List Text → Text
spell rooted es = if rooted then b'/' ∷ join_elements es else or_dot es

join-spell :
    (d s : Text)
    → is_blank d ≡ false
    → All IsPlain (elements s)
    → join d s ≡ spell (is_rooted d) (clean_elements d ++ elements s)
unfolding join clean
join-spell d s nd h = rw (nd, is_rooted-append d (b'/' ∷ s) nd, clean_elements-append d s nd h)

join_elements-injective :
    (xs ys : List Text)
    → xs ≢ []
    → ys ≢ []
    → All (Lacks b'/') xs
    → All (Lacks b'/') ys
    → join_elements xs ≡ join_elements ys
    → xs ≡ ys
join_elements-injective [] ys nx ny hx hy e = absurd (nx refl)
join_elements-injective (x ∷ xs) [] nx ny hx hy e = absurd (ny refl)
join_elements-injective (x ∷ xs) (y ∷ ys) nx ny hx hy e =
    sym (elements-join_elements x xs hx) ∙ ap elements e ∙ elements-join_elements y ys hy

spell-injective :
    (rooted : Bool) (xs ys : List Text)
    → xs ≢ []
    → ys ≢ []
    → All (Lacks b'/') xs
    → All (Lacks b'/') ys
    → spell rooted xs ≡ spell rooted ys
    → xs ≡ ys
spell-injective true xs ys nx ny hx hy e = join_elements-injective xs ys nx ny hx hy (cc)
spell-injective false [] ys nx ny hx hy e = absurd (nx refl)
spell-injective false (x ∷ xs) [] nx ny hx hy e = absurd (ny refl)
spell-injective false (x ∷ xs) (y ∷ ys) nx ny hx hy e = join_elements-injective _ _ nx ny hx hy e

append-elements_ne : (xs : List Text) (s : Text) → xs ++ elements s ≢ []
append-elements_ne [] s p = let (e, es, q) = elements-cons s in ground arith
append-elements_ne (x ∷ xs) s p = cc

-- Under one directory, different paths with plain elements are joined to different paths.
pub join-injective :
    (d s t : Text)
    → is_blank d ≡ false
    → All IsPlain (elements s)
    → All IsPlain (elements t)
    → join d s ≡ join d t
    → s ≡ t
join-injective d s t nd hs ht e =
    sym (join_elements-elements s) ∙ ap join_elements same ∙ join_elements-elements t
  where
    kept : (u : Text) → All (Lacks b'/') (clean_elements d ++ elements u)
    kept u = All-append (Lacks b'/') _ _ (clean_elements-Lacks d) (elements-Lacks u)

    same : elements s ≡ elements t
    same = append_cancel_left (clean_elements d) _ _ (
        spell-injective (is_rooted d) _ _ (append-elements_ne _ s) (append-elements_ne _ t) (kept s)
          (kept t) (sym (join-spell d s nd hs) ∙ e ∙ join-spell d t nd ht))
