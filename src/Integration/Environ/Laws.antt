-- ===== src/Integration/Environ/Laws.antt =====
-- What a variable is in a changed environment.
use skopeo.Prelude.{
  ◌≡◌, refl, sym, ap, ◌∙◌, inl, inr, true, Bool-cases, Option, none, some, List, [], ◌∷◌, ◌++◌,
  arith, if◌then◌else◌,
}
use skopeo.Prelude.Texts.{Text, ◌==◌, eq_of_==, has_prefix, drop_prefix}
use skopeo.Prelude.Texts.Laws.{Lacks, has_prefix-append, drop_prefix-append}
use skopeo.Integration.Environ.{kept, modify_environ}
use mathlib.Core.List.{append_assoc, append-nil}

-- The value of a variable in an environment: that of its first assignment.
abbrev pub get_env : Text → List Text → Option Text
get_env name [] = none
get_env name (e ∷ env) =
    if has_prefix e (name ++ b'=' ∷ [])
    then some (drop_prefix e (name ++ b'=' ∷ []))
    else get_env name env

-- A text that begins with two names and `=` each begins with one name.
one_name :
    (s m n : Text)
    → Lacks b'=' m
    → Lacks b'=' n
    → has_prefix s (m ++ b'=' ∷ []) ≡ true
    → has_prefix s (n ++ b'=' ∷ []) ≡ (m == n)
unfolding has_prefix ◌==◌
one_name [] [] n hm hn h = ground arith
one_name [] (c ∷ m) n hm hn h = ground arith
one_name (e ∷ s) [] [] hm hn h = ground arith
one_name (e ∷ s) [] (d ∷ n) hm hn h = ground arith
one_name (e ∷ s) (c ∷ m) [] hm hn h = ground arith
one_name (e ∷ s) (c ∷ m) (d ∷ n) hm hn h = ground (arith, one_name s m n)

get_env-append :
    (name : Text) (env env' : List Text)
    → get_env name (env ++ env')
      ≡ elim (get_env name env) [ some v ↦ some v | none ↦ get_env name env' ]
get_env-append name [] env' = refl
get_env-append name (e ∷ env) env' = ground (arith, get_env-append name env env')

kept_of : (prefix : Text) (res env : List Text) → kept prefix res env ≡ res ++ kept prefix [] env
unfolding kept
kept_of prefix res [] = rw append-nil
kept_of prefix res (e ∷ env) = elim (Bool-cases (has_prefix e prefix)) [
  | inl p ↦ rw p (kept_of prefix res env)
  | inr p ↦ rw p (
      kept_of prefix (res ++ e ∷ []) env
      ∙ append_assoc res (e ∷ []) (kept prefix [] env)
      ∙ ap (λ l. res ++ l) (sym (kept_of prefix (e ∷ []) env)))
]

same_prefix :
    (e name other : Text)
    → (name == other) ≡ true
    → has_prefix e (other ++ b'=' ∷ []) ≡ has_prefix e (name ++ b'=' ∷ [])
same_prefix e name other h =
    ap (λ (x : Text). has_prefix e (x ++ b'=' ∷ [])) (sym (eq_of_== name other h))

-- What is kept are the assignments of the other variables.
get_env-kept :
    (name other : Text) (env : List Text)
    → Lacks b'=' name
    → Lacks b'=' other
    → get_env other (kept (name ++ b'=' ∷ []) [] env)
      ≡ (if name == other then none else get_env other env)
unfolding kept
get_env-kept name other [] hn ho = ground arith
get_env-kept name other (e ∷ env) hn ho = elim (Bool-cases (has_prefix e (name ++ b'=' ∷ []))) [
  | inl p ↦ rw p (ground (arith, get_env-kept name other env hn ho, one_name e name other hn ho p))
  | inr p ↦
      rw (p, kept_of (name ++ b'=' ∷ []) (e ∷ []) env)
        (ground (arith, get_env-kept name other env hn ho, same_prefix e name other))
]

same_rest :
    (e name other : Text)
    → (name == other) ≡ true
    → drop_prefix e (other ++ b'=' ∷ []) ≡ drop_prefix e (name ++ b'=' ∷ [])
same_rest e name other h =
    ap (λ (x : Text). drop_prefix e (x ++ b'=' ∷ [])) (sym (eq_of_== name other h))

get_env_of_new :
    (name value other : Text)
    → Lacks b'=' name
    → Lacks b'=' other
    → get_env other (((name ++ b'=' ∷ []) ++ value) ∷ [])
      ≡ (if name == other then some value else none)
get_env_of_new name value other hn ho =
    let e = (name ++ b'=' ∷ []) ++ value in
    let begins : has_prefix e (name ++ b'=' ∷ []) ≡ true =
      has_prefix-append (name ++ b'=' ∷ []) value in
    ground (
      arith,
      one_name e name other hn ho begins,
      same_rest e name other,
      drop_prefix-append (name ++ b'=' ∷ []) value,
    )

-- After modifyEnviron, the variable has the value, and every other variable has the value that it
-- had, or none as before; names have no `=`.
pub get_env-modify_environ :
    (env : List Text) (name value other : Text)
    → Lacks b'=' name
    → Lacks b'=' other
    → get_env other (modify_environ env name value)
      ≡ (if name == other then some value else get_env other env)
unfolding modify_environ
get_env-modify_environ env name value other hn ho =
    rw
      (get_env-append other (kept (name ++ b'=' ∷ []) [] env) (((name ++ b'=' ∷ []) ++ value) ∷ []))
      (ground (arith, get_env-kept name other env hn ho, get_env_of_new name value other hn ho))
