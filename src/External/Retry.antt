-- ===== src/External/Retry.antt =====
-- Retries by the library.
use skopeo.Prelude.Int.{pos_part}
use skopeo.Go.{Exec}
use skopeo.Go.Retry.{Runs}
use skopeo.External.Context.{Kinds, Context}
use skopeo.External.Libraries.{Remote}
use skopeo.Options.{RetryOptions}

-- What package retry documents of its function, for the retries that the options allow.
pub record IsRetry (K : Kinds) (N : Remote K) : Type 1 where
  pub runs :
      (A : Type 0) (ctx : Context) (opts : RetryOptions) (m : Exec (K.World) A) (w : K.World)
      → Runs m (N.retry_if_necessary A ctx opts m w) (pos_part opts.max_retry) w
