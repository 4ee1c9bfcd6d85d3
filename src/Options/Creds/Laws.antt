-- ===== src/Options/Creds/Laws.antt =====
-- `parseCreds` accepts exactly `USERNAME` and `USERNAME:PASSWORD`.
use mathlib.Core.Path.{subst}
use skopeo.Prelude.{
  ◌≡◌, refl, sym, ◌↔◌, ◌≢◌, ◌⊎◌, inl, inr, false, Option, none, some, [], ◌∷◌, ◌++◌, arith,
}
use skopeo.Prelude.Texts.{Text, parts_of, split_n2, cut, is_blank}
use skopeo.Prelude.Texts.Laws.{Lacks, cut-append, cut_lacking, cut-Lacks, rejoin, rejoin-cut}
use skopeo.Go.{ok}
use skopeo.Options.Creds.{parse_creds, creds_of_parts}

-- The two forms that the flag's help gives for the credentials of `user` with `password`.
abbrev pub Spells : Text → Text → Text → Type 0
Spells user password creds = ((creds ≡ user) × (password ≡ [])) ⊎ (creds ≡ user ++ b':' ∷ password)

parse_creds_complete :
    (user password creds : Text)
    → user ≢ []
    → Lacks b':' user
    → Spells user password creds
    → parse_creds creds ≡ ok (user, password)
unfolding parse_creds split_n2
parse_creds_complete [] password creds h l s = absurd (h refl)
parse_creds_complete (c ∷ user) password creds h l (inl (e, p)) =
    rw (e, p) (rw (cut_lacking b':' (c ∷ user) l))
parse_creds_complete (c ∷ user) password creds h l (inr e) =
    rw e (rw (cut-append b':' (c ∷ user) password l))

Spells-of_parts :
    (user password creds : Text) (parts : Text × Option Text)
    → is_blank creds ≡ false
    → rejoin b':' parts ≡ creds
    → Lacks b':' parts.0
    → creds_of_parts (parts_of parts) ≡ ok (user, password)
    → (user ≢ []) × Lacks b':' user × Spells user password creds
unfolding creds_of_parts
Spells-of_parts user password creds (before, none) b j l h =
    let e : before ≡ user = ground arith in
    (λ blank. ground arith, rw e at l, inl (ground arith, ground arith))
Spells-of_parts user password creds ([], some after) b j l h = cc
Spells-of_parts user password creds (c ∷ before, some after) b j l h =
    let e : c ∷ before ≡ user = ground arith in
    let f : after ≡ password = ground arith in
    (λ blank. ground arith, subst (Lacks b':') e l, inr (rw (← e, ← f) (sym j)))

-- Credentials are read as a user and a password exactly when the user is not blank and has no colon,
-- and the text is the user alone, with a blank password, or the user, a colon and the password.
pub parse_creds_iff :
    (user password creds : Text)
    → (parse_creds creds ≡ ok (user, password))
      ↔ ((user ≢ []) × Lacks b':' user × Spells user password creds)
unfolding parse_creds split_n2
parse_creds_iff user password creds = (
  λ h.
      Spells-of_parts user password creds (cut b':' creds) (ground arith) (rejoin-cut b':' creds)
        (cut-Lacks b':' creds) (ground arith),
  λ (h, l, s). parse_creds_complete user password creds h l s,
)
