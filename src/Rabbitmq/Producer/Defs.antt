-- ===== src/Rabbitmq/Producer/Defs.antt =====
-- shared/rabbitmq_client/src/producer: the messages, the publisher confirms, and the processing of
-- one confirm.
use tom_notifier.Base.{
  ℕ, Bool, List, [], ◌∷◌, ◌++◌, none, some, leb, ◌==◌, if◌then◌else◌, position, remove_at,
}
use Prim.Native.String.{String}

-- `Message`; `P` stands for the `BasicProperties` of the AMQP library.
pub record Message (P : Type 0) : Type 0 where
  pub routing_key : String
  pub basic_properties : P
  pub content : List ℕ

pub data PublisherConfirmVariant : Type 0 where
  ack nack : PublisherConfirmVariant

pub record PublisherConfirm : Type 0 where
  pub delivery_tag : ℕ
  pub multiple : Bool
  pub variant : PublisherConfirmVariant

module _ {P : Type 0} where
  -- The callback that `process_confirm` selects: what it sends to `messages_tx`.
  unfoldable pub on_remove : PublisherConfirmVariant → Message P → List (Message P)
  on_remove PublisherConfirmVariant.ack message = []
  on_remove PublisherConfirmVariant.nack message = message ∷ []

  -- The loop for `multiple`: it removes from the front while the count is at most the tag.
  unfoldable pub remove_front :
      PublisherConfirmVariant → ℕ → List (ℕ × Message P) → List (ℕ × Message P) × List (Message P)
  unfolding on_remove
  remove_front variant tag [] = ([], [])
  remove_front variant tag ((message_count, message) ∷ queue) =
      let rest = remove_front variant tag queue in
      if leb message_count tag
      then (rest.0, on_remove variant message ++ rest.1)
      else ((message_count, message) ∷ queue, [])

  -- The branch for one tag: the entry at the first position with that count.
  unfoldable pub remove_one :
      PublisherConfirmVariant → ℕ → List (ℕ × Message P) → List (ℕ × Message P) × List (Message P)
  unfolding on_remove
  remove_one variant tag queue = elim (position (λ e. e.0 == tag) 0 queue) [
    | none ↦ (queue, [])
    | some idx ↦ elim (remove_at idx queue) [
      | none ↦ (queue, [])
      | some (e, rest) ↦ (rest, on_remove variant e.1)
    ]
  ]

  -- `process_confirm` over the queue `unconfirmed_messages`: the queue after it, and the messages
  -- that it sends to `messages_tx`, in order.
  unfoldable pub process_confirm :
      PublisherConfirm → List (ℕ × Message P) → List (ℕ × Message P) × List (Message P)
  unfolding remove_front remove_one
  process_confirm confirm queue =
      if confirm.multiple
      then remove_front confirm.variant confirm.delivery_tag queue
      else remove_one confirm.variant confirm.delivery_tag queue

-- channel_callback.rs: the confirms that the broker's acks and nacks become.
unfoldable pub publish_ack : ℕ → Bool → PublisherConfirm
publish_ack delivery_tag multiple = record {
  delivery_tag = delivery_tag;
  multiple = multiple;
  variant = PublisherConfirmVariant.ack;
}

unfoldable pub publish_nack : ℕ → Bool → PublisherConfirm
publish_nack delivery_tag multiple = record {
  delivery_tag = delivery_tag;
  multiple = multiple;
  variant = PublisherConfirmVariant.nack;
}

-- `RabbitmqProducer::send`: the message for `messages_tx`.
unfoldable pub send : {P : Type 0} → String → P → List ℕ → Message P
send routing_key basic_properties content = record {
  routing_key = routing_key;
  basic_properties = basic_properties;
  content = content;
}
