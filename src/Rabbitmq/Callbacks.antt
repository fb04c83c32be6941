-- ===== src/Rabbitmq/Callbacks.antt =====
-- The callbacks that the AMQP library calls: producer/channel_callback.rs,
-- consumer/channel_callback.rs and connection/connection_callback.rs of shared/rabbitmq_client/src.
-- What they log is left out.
use mathlib.Core.List.{append-nil, append_assoc}
use tom_notifier.Base.{ℕ, ◌≡◌, refl, ◌∙◌, Bool, true, false, List, [], ◌∷◌, ◌++◌}
use tom_notifier.Rabbitmq.Producer.Defs.{PublisherConfirm, publish_ack, publish_nack}

-- What the broker sends on a channel: `ack` and `nack` with a delivery tag and the flag `multiple`.
pub data ChannelSignal : Type 0 where
  close cancel returned : ChannelSignal
  flow : Bool → ChannelSignal
  ack nack : ℕ → Bool → ChannelSignal

-- `ChannelCallback` of a producer: what was sent to `publisher_confirm_tx`, and the last value of
-- `flow_tx`.
pub record ProducerCallback : Type 0 where
  pub publisher_confirm_tx : List PublisherConfirm
  pub flow_tx : Bool

unfoldable pub send_confirm : PublisherConfirm → ProducerCallback → ProducerCallback
send_confirm confirm c = record c {
  publisher_confirm_tx = c.publisher_confirm_tx ++ (confirm ∷ []);
}

unfoldable pub producer_callback : ChannelSignal → ProducerCallback → ProducerCallback
unfolding send_confirm publish_ack publish_nack
producer_callback close c = c
producer_callback cancel c = c
producer_callback returned c = c
producer_callback (flow active) c = record c { flow_tx = active }
producer_callback (ack delivery_tag multiple) c = send_confirm (publish_ack delivery_tag multiple) c
producer_callback (nack delivery_tag multiple) c =
    send_confirm (publish_nack delivery_tag multiple) c

-- `ChannelCallback` of a consumer: whether `consumer_cancelled_notify` holds a permit.
unfoldable pub consumer_callback : ChannelSignal → Bool → Bool
consumer_callback cancel notified = true
consumer_callback close notified = notified
consumer_callback returned notified = notified
consumer_callback (flow active) notified = notified
consumer_callback (ack delivery_tag multiple) notified = notified
consumer_callback (nack delivery_tag multiple) notified = notified

pub data ConnectionSignal : Type 0 where
  close_connection blocked unblocked : ConnectionSignal

-- `ConnectionCallback`: the last value of `blocked_tx`.
unfoldable pub connection_callback : ConnectionSignal → Bool → Bool
connection_callback close_connection is_blocked = is_blocked
connection_callback blocked is_blocked = true
connection_callback unblocked is_blocked = false

-- Signals, in the order in which they come.
unfoldable pub producer_callbacks : List ChannelSignal → ProducerCallback → ProducerCallback
unfolding producer_callback
producer_callbacks [] c = c
producer_callbacks (signal ∷ signals) c = producer_callbacks signals (producer_callback signal c)

-- The confirms that signals stand for, and the flow after them.
abbrev pub confirms_of : List ChannelSignal → List PublisherConfirm
confirms_of [] = []
confirms_of (ack delivery_tag multiple ∷ signals) =
    publish_ack delivery_tag multiple ∷ confirms_of signals
confirms_of (nack delivery_tag multiple ∷ signals) =
    publish_nack delivery_tag multiple ∷ confirms_of signals
confirms_of (_ ∷ signals) = confirms_of signals

abbrev pub flow_after : List ChannelSignal → Bool → Bool
flow_after [] active = active
flow_after (flow active ∷ signals) before = flow_after signals active
flow_after (_ ∷ signals) active = flow_after signals active

confirms_append :
    (signals : List ChannelSignal) (confirms : List PublisherConfirm) (flow_tx : Bool)
    → producer_callbacks signals (record { publisher_confirm_tx = confirms; flow_tx = flow_tx })
      ≡ record {
        publisher_confirm_tx = confirms ++ confirms_of signals;
        flow_tx = flow_after signals flow_tx;
      }
unfolding producer_callbacks
confirms_append [] confirms flow_tx = rw append-nil refl
confirms_append (close ∷ signals) confirms flow_tx = confirms_append signals confirms flow_tx
confirms_append (cancel ∷ signals) confirms flow_tx = confirms_append signals confirms flow_tx
confirms_append (returned ∷ signals) confirms flow_tx = confirms_append signals confirms flow_tx
confirms_append (flow active ∷ signals) confirms flow_tx = confirms_append signals confirms active
confirms_append (ack tag multiple ∷ signals) confirms flow_tx =
    confirms_append signals (confirms ++ (publish_ack tag multiple ∷ [])) flow_tx
    ∙ rw append_assoc refl
confirms_append (nack tag multiple ∷ signals) confirms flow_tx =
    confirms_append signals (confirms ++ (publish_nack tag multiple ∷ [])) flow_tx
    ∙ rw append_assoc refl
