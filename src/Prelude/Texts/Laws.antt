-- ===== src/Prelude/Texts/Laws.antt =====
-- Laws of the functions on Go strings.
use skopeo.Prelude.{ℕ, ◌≡◌, refl, true, false, Option, none, some, [], ◌∷◌, ◌++◌, arith, eqb}
use skopeo.Prelude.Texts.{Text, has_prefix, drop_prefix, trim_prefix, cut}

pub has_prefix-append : (prefix s : Text) → has_prefix (prefix ++ s) prefix ≡ true
unfolding has_prefix
has_prefix-append [] s = refl
has_prefix-append (p ∷ prefix) s = ground (arith, has_prefix-append prefix s)

pub drop_prefix-append : (prefix s : Text) → drop_prefix (prefix ++ s) prefix ≡ s
unfolding drop_prefix
drop_prefix-append [] s = refl
drop_prefix-append (p ∷ prefix) s = drop_prefix-append prefix s

pub trim_prefix-append : (prefix s : Text) → trim_prefix (prefix ++ s) prefix ≡ s
unfolding trim_prefix
trim_prefix-append prefix s =
    ground (arith, has_prefix-append prefix s, drop_prefix-append prefix s)

-- A text with a prefix is the prefix and what follows it.
pub append-drop_prefix :
    (s prefix : Text) → has_prefix s prefix ≡ true → prefix ++ drop_prefix s prefix ≡ s
unfolding has_prefix drop_prefix
append-drop_prefix s [] h = refl
append-drop_prefix [] (p ∷ prefix) h = ground arith
append-drop_prefix (c ∷ s) (p ∷ prefix) h = ground (arith, append-drop_prefix s prefix)

-- No byte of the text is `sep`.
abbrev pub Lacks : ℕ → Text → Type 0
Lacks sep [] = Unit
Lacks sep (c ∷ s) = (eqb c sep ≡ false) × Lacks sep s

pub cut-append : (sep : ℕ) (s t : Text) → Lacks sep s → cut sep (s ++ sep ∷ t) ≡ (s, some t)
unfolding cut
cut-append sep [] t h = ground arith
cut-append sep (c ∷ s) t h = ground (arith, cut-append sep s t)

pub cut_lacking : (sep : ℕ) (s : Text) → Lacks sep s → cut sep s ≡ (s, none)
unfolding cut
cut_lacking sep [] h = refl
cut_lacking sep (c ∷ s) h = ground (arith, cut_lacking sep s)

pub cut-Lacks : (sep : ℕ) (s : Text) → Lacks sep (cut sep s).0
unfolding cut
cut-Lacks sep [] = tt
cut-Lacks sep (c ∷ s) = ground (arith, cut-Lacks sep s)

-- What `cut` returns makes up the text again.
abbrev pub rejoin : ℕ → Text × Option Text → Text
rejoin sep (before, none) = before
rejoin sep (before, some after) = before ++ sep ∷ after

pub rejoin-cut : (sep : ℕ) (s : Text) → rejoin sep (cut sep s) ≡ s
unfolding cut
rejoin-cut sep [] = refl
rejoin-cut sep (c ∷ s) = ground (arith, rejoin-cut sep s)
