-- ===== src/Policy/Laws.antt =====
-- A policy context is destroyed at every return.
use skopeo.Prelude.{◌≡◌, refl, ap, ◌∙◌}
use skopeo.Go.{Result, ok, err, Exec}
use skopeo.External.Context.{Kinds}
use skopeo.External.Libraries.{Remote}
use skopeo.Policy.{destroying}

module _ (K : Kinds) (N : Remote K) where
  pub destroying-eq-ok :
      (policy : K.PolicyContext) (body : Exec (K.World) (Unit {0})) (w w' : K.World)
      → destroying K N policy body w ≡ (ok tt, w')
      → (copied : K.World) × (body w ≡ (ok tt, copied)) × (N.destroy policy copied ≡ w')
  unfolding destroying
  destroying-eq-ok policy body w w' h = ended (body w) refl h
    where
      ended :
          (r : Result (Unit {0}) × K.World)
          → body w ≡ r
          → ◌≡◌ {A = Result (Unit {0}) × K.World} (r.0, N.destroy policy r.1) (ok tt, w')
          → (copied : K.World) × (body w ≡ (ok tt, copied)) × (N.destroy policy copied ≡ w')
      ended (ok tt, v) p e = (v, p, ap (λ r. r.1) e)
      ended (err e', v) p e = cc

  pub destroying_of_ok :
      (policy : K.PolicyContext) (body : Exec (K.World) (Unit {0})) (w copied w' : K.World)
      → body w ≡ (ok tt, copied)
      → N.destroy policy copied ≡ w'
      → destroying K N policy body w ≡ (ok tt, w')
  unfolding destroying
  destroying_of_ok policy body w copied w' p q =
      ap (λ r. (r.0, N.destroy policy r.1)) p ∙ ap (λ v. (ok tt, v)) q
