-- ===== src/Rabbitmq/Retry.antt =====
-- shared/rabbitmq_client/src/retry.rs.
use tom_notifier.Base.{List, [], ◌∷◌, Option, none, some}

-- What the awaited calls have returned so far, in order: `none` is an error, after which the
-- loop sleeps and tries again. The loop returns the first success; `none` is a loop that waits.
unfoldable pub retry {ℓ} : {T : Type ℓ} → List (Option T) → Option T
retry [] = none
retry (none ∷ attempts) = retry attempts
retry (some output ∷ attempts) = some output
