-- ===== src/Rabbitmq/Await.antt =====
-- How an await of shared/rabbitmq_client ends, for the state machines of the producer and of the
-- consumer.
use tom_notifier.Base.{List, Option}

-- `pending`: the await does not end this way, or not yet. `panicked`: an `unwrap` fails.
pub data Outcome {ℓ} (A : Type ℓ) : Type ℓ where
  pending panicked : Outcome A
  done : A → Outcome A

-- How far the block that recreates the channel got: the results of `open_channel`, and of
-- `register_callback`.
pub data Progress (Ch : Type 0) : Type 0 where
  unpolled : Progress Ch
  polled : List (Option Ch) → List (Option (Unit {0})) → Progress Ch
