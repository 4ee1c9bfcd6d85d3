-- ===== src/Sync/Run/Copies.antt =====
-- The nested loops of `run` copy a flat list of jobs, in order, up to the first that fails.
use native.Mathlib.Nat.{add-zero}
use skopeo.Prelude.{ℕ, ◌+◌, ◌≡◌, refl, sym, ◌∙◌, ap, ◌↔◌, inl, inr, List, [], ◌∷◌, ◌++◌, arith}
use skopeo.Prelude.Lists.{length}
use skopeo.Prelude.Texts.{Text}
use skopeo.Go.{ok, err, GoError, Exec, continue, ◌>>◌, pure}
use skopeo.Go.Laws.{continue-eq-ok, continue-eq-err, continue_cong, continue_assoc}
use skopeo.External.Context.{Kinds, SystemContext, Context}
use skopeo.External.Libraries.{References, Host, Remote, CopyOptions}
use skopeo.Sync.Config.{RepoDescriptor}
use skopeo.Sync.Run.{SyncOptions, copy_ref, copy_refs, copy_repos}

-- One image to copy: the context and the base path of its repository, and its reference.
pub record Job (K : Kinds) : Type 0 where
  pub source_ctx : SystemContext K
  pub dir_base_path : Text
  pub ref : K.ImageReference

module _ {K : Kinds} where
  abbrev pub jobs_of : SystemContext K → Text → List (K.ImageReference) → List (Job K)
  jobs_of ctx dir_base_path [] = []
  jobs_of ctx dir_base_path (ref ∷ refs) =
      record { source_ctx = ctx; dir_base_path = dir_base_path; ref = ref }
      ∷ jobs_of ctx dir_base_path refs

  abbrev pub jobs : List (RepoDescriptor K) → List (Job K)
  jobs [] = []
  jobs (repo ∷ repos) = jobs_of repo.context repo.dir_base_path repo.image_refs ++ jobs repos

module _ (K : Kinds) (R : References K) (H : Host K) (N : Remote K) (ctx : Context)
    (policy : K.PolicyContext) (opts : SyncOptions) (destination : Text)
    (options : CopyOptions K) where
  -- The copy of one job, with the options that the loops give it.
  abbrev pub do_job : Job K → Exec (K.World) (Unit {0})
  do_job job =
      copy_ref K R H N ctx policy opts destination job.dir_base_path
        (record options { source_ctx = job.source_ctx }) job.ref

  -- All the jobs succeed one after the other, from the first world to the second.
  abbrev pub Done : List (Job K) → K.World → K.World → Type 0
  Done [] w w' = w ≡ w'
  Done (job ∷ rest) w w' = (u : K.World) × (do_job job w ≡ (ok tt, u)) × Done rest u w'

  run_jobs : ℕ → List (Job K) → Exec (K.World) ℕ
  run_jobs number [] = pure number
  run_jobs number (job ∷ rest) = do do_job job; run_jobs (number + 1) rest

  run_jobs-jobs_of :
      (number : ℕ) (c : SystemContext K) (base : Text) (refs : List (K.ImageReference))
      (rest : List (Job K)) (w : K.World)
      → run_jobs number (jobs_of c base refs ++ rest) w
        ≡ continue
            (copy_refs K R H N ctx policy opts destination base
              (record options { source_ctx = c })
              number
              refs
              w)
            (λ n. run_jobs n rest)
  unfolding run_jobs copy_refs
  run_jobs-jobs_of number c base [] rest w = refl
  run_jobs-jobs_of number c base (ref ∷ refs) rest w =
      continue_cong (do_job (record { source_ctx = c; dir_base_path = base; ref = ref }) w) _ _
        (λ _ v. run_jobs-jobs_of (number + 1) c base refs rest v)
      ∙ sym (
          continue_assoc (do_job (record { source_ctx = c; dir_base_path = base; ref = ref }) w) _
            _)

  run_jobs-jobs :
      (number : ℕ) (repos : List (RepoDescriptor K)) (w : K.World)
      → copy_repos K R H N ctx policy opts destination options number repos w
        ≡ run_jobs number (jobs repos) w
  unfolding run_jobs copy_repos
  run_jobs-jobs number [] w = refl
  run_jobs-jobs number (repo ∷ repos) w =
      continue_cong
        (copy_refs K R H N ctx policy opts destination repo.dir_base_path
          (record options { source_ctx = repo.context }) number repo.image_refs w)
        _ _ (λ n v. run_jobs-jobs n repos v)
      ∙ sym (run_jobs-jobs_of number repo.context repo.dir_base_path repo.image_refs (jobs repos) w)

  run_jobs-Done :
      (number : ℕ) (js : List (Job K)) (w w' : K.World) (n : ℕ)
      → run_jobs number js w ≡ (ok n, w')
      → Done js w w' × (n ≡ number + length js)
  unfolding run_jobs
  run_jobs-Done number [] w w' n h = (cc, ground arith)
  run_jobs-Done number (job ∷ rest) w w' n h =
      let (_, u, p, q) = continue-eq-ok (do_job job w) _ h in
      let (done, e) = run_jobs-Done (number + 1) rest u w' n q in ((u, p, done), omega arith)

  Done-run_jobs :
      (number : ℕ) (js : List (Job K)) (w w' : K.World)
      → Done js w w'
      → run_jobs number js w ≡ (ok (number + length js), w')
  unfolding run_jobs
  Done-run_jobs number [] w w' h = rw (add-zero, h)
  Done-run_jobs number (job ∷ rest) w w' (u, p, done) =
      rw p (Done-run_jobs (number + 1) rest u w' done ∙ ap (λ n. (ok n, w')) (omega arith))

  -- The loops succeed exactly when every image of every repository is copied, in order, each with
  -- the context of its repository; their number is then the number of all the images.
  pub copy_repos-Done :
      (number : ℕ) (repos : List (RepoDescriptor K)) (w w' : K.World) (n : ℕ)
      → (copy_repos K R H N ctx policy opts destination options number repos w ≡ (ok n, w'))
        ↔ (Done (jobs repos) w w' × (n ≡ number + length (jobs repos)))
  copy_repos-Done number repos w w' n = (
    λ h. run_jobs-Done number (jobs repos) w w' n (sym (run_jobs-jobs number repos w) ∙ h),
    λ (done, e). rw (run_jobs-jobs, e) (Done-run_jobs number (jobs repos) w w' done),
  )

  -- Some jobs are done, and the next one fails with the error and leaves the second world.
  abbrev pub StoppedAt : List (Job K) → K.World → GoError → K.World → Type 0
  StoppedAt js w e w' =
      (before : List (Job K)) × (job : Job K) × (after : List (Job K)) × (u : K.World) × (js
        ≡ before ++ job ∷ after)
      × Done before w u
      × (do_job job u ≡ (err e, w'))

  run_jobs-StoppedAt :
      (number : ℕ) (js : List (Job K)) (w w' : K.World) (e : GoError)
      → run_jobs number js w ≡ (err e, w')
      → StoppedAt js w e w'
  unfolding run_jobs
  run_jobs-StoppedAt number [] w w' e h = ground arith
  run_jobs-StoppedAt number (job ∷ rest) w w' e h = elim (continue-eq-err (do_job job w) _ h) [
    | inl stop ↦ ([], job, rest, w, refl, refl, stop)
    | inr (_, u, p, q) ↦
        let (before, last, after, v, split, done, stop) =
          run_jobs-StoppedAt (number + 1) rest u w' e q in
        (job ∷ before, last, after, v, ap (λ js. job ∷ js) split, (u, p, done), stop)
  ]

  -- When the loops fail with an error, the images before some job were copied, in order, the copy of
  -- that job gave the error, and nothing was done for the images after it.
  pub copy_repos-StoppedAt :
      (number : ℕ) (repos : List (RepoDescriptor K)) (w w' : K.World) (e : GoError)
      → copy_repos K R H N ctx policy opts destination options number repos w ≡ (err e, w')
      → StoppedAt (jobs repos) w e w'
  copy_repos-StoppedAt number repos w w' e h =
      run_jobs-StoppedAt number (jobs repos) w w' e (sym (run_jobs-jobs number repos w) ∙ h)
