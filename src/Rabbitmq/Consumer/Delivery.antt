-- ===== src/Rabbitmq/Consumer/Delivery.antt =====
-- shared/rabbitmq_client/src/consumer/async_consumer.rs, with the results of delivery callbacks and
-- dto/delivery_response.rs.
pub mod Tasks
use tom_notifier.Base.{ℕ, ◌≡◌, refl, Bool, true, false, List, [], ◌∷◌, ◌++◌, map, if◌then◌else◌}

pub record ConsumeError : Type 0 where
  pub requeue : Bool

-- The result of a delivery callback.
pub data Consumed : Type 0 where
  ok : Consumed
  err : ConsumeError → Consumed

pub data DeliveryResponse : Type 0 where
  ack : ℕ → DeliveryResponse
  nack : ℕ → Bool → DeliveryResponse

-- The calls on the channel: `basic_ack tag multiple` and `basic_nack tag multiple requeue`.
pub data ChannelCall : Type 0 where
  basic_ack : ℕ → Bool → ChannelCall
  basic_nack : ℕ → Bool → Bool → ChannelCall

-- `ProcessingTask::run`: the answer to a delivery, by the callback's result.
unfoldable pub response : ℕ → Consumed → DeliveryResponse
response delivery_tag Consumed.ok = DeliveryResponse.ack delivery_tag
response delivery_tag (err e) = DeliveryResponse.nack delivery_tag e.requeue

-- What the task sends to the response task; `open'` says whether that task still listens.
unfoldable pub processing_task : ℕ → Consumed → Bool → List DeliveryResponse
unfolding response
processing_task delivery_tag result open' = if open' then response delivery_tag result ∷ [] else []

-- `ResponseTask::run` over the responses that it receives. Errors of the calls are only logged.
unfoldable pub response_task : List DeliveryResponse → List ChannelCall
response_task [] = []
response_task (DeliveryResponse.ack delivery_tag ∷ responses) =
    basic_ack delivery_tag false ∷ response_task responses
response_task (DeliveryResponse.nack delivery_tag requeue ∷ responses) =
    basic_nack delivery_tag false requeue ∷ response_task responses

-- Deliveries whose callbacks have ended, in the order in which they ended.
unfoldable pub answers : List (ℕ × Consumed) → List DeliveryResponse
unfolding processing_task
answers [] = []
answers ((delivery_tag, result) ∷ ended) = processing_task delivery_tag result true ++ answers ended

-- The call that a delivery deserves.
abbrev pub answer : ℕ × Consumed → ChannelCall
answer (delivery_tag, Consumed.ok) = basic_ack delivery_tag false
answer (delivery_tag, err e) = basic_nack delivery_tag false e.requeue

-- While the response task listens, each delivery whose callback has ended is answered once, under
-- its own tag, in the order of the ends: with an ack if the callback succeeded, and else with a nack
-- that requeues if the error says so.
pub response_task-answers :
    (ended : List (ℕ × Consumed)) → response_task (answers ended) ≡ map answer ended
unfolding response_task answers
response_task-answers [] = refl
response_task-answers ((delivery_tag, Consumed.ok) ∷ ended) = rw (response_task-answers ended)
response_task-answers ((delivery_tag, err e) ∷ ended) = rw (response_task-answers ended)
