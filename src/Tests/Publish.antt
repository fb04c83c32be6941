-- ===== src/Tests/Publish.antt =====
-- Runs of the model of a producer of shared/rabbitmq_client.
use tom_notifier.Base.{ℕ, ◌≡◌, ◌+◌, refl, Bool, true, false, List, [], ◌∷◌, some, count, arith}
use tom_notifier.Rabbitmq.Producer.Defs.{
  Message, PublisherConfirm, PublisherConfirmVariant, process_confirm,
}
use tom_notifier.Rabbitmq.Producer.Confirm.{process_confirm-covers}
use tom_notifier.Rabbitmq.Producer.Types.{
  State, StateMachine, confirm_received, message_received, in_ok, Running,
}
use tom_notifier.Rabbitmq.Producer.Machine.{step}
use tom_notifier.Rabbitmq.Producer.Machine.Coherent.{IsCoherent}
use tom_notifier.Rabbitmq.Producer.Machine.Amounts.{amount}
use tom_notifier.Rabbitmq.Producer.Machine.Runs.{Run, here, next, Run-Balance}
use tom_notifier.Rabbitmq.Producer.Machine.Recovery.{Recovers, recovers}

abbrev letter : ℕ → Message ℕ
letter n = record { routing_key = "NEW"; basic_properties = 0; content = n ∷ [] }

abbrev queue : List (ℕ × Message ℕ)
queue = (1, letter 1) ∷ (2, letter 2) ∷ (3, letter 3) ∷ []

abbrev refused : PublisherConfirm
refused = record { delivery_tag = 2; multiple = true; variant = PublisherConfirmVariant.nack }

process_confirm-covers_example :
    process_confirm refused queue ≡ ((3, letter 3) ∷ [], letter 1 ∷ letter 2 ∷ [])
process_confirm-covers_example =
    process_confirm-covers refused 0 queue (omega arith, (omega arith, (omega arith, tt)))

-- A machine with three unconfirmed messages, in the loop of `ok_state`.
abbrev machine : List (ℕ × Message ℕ) → StateMachine ℕ ℕ ℕ
machine messages = record {
  connection = some 7;
  channel = 8;
  exchange = "notifications";
  unconfirmed_messages = messages;
  state = State.ok;
}

abbrev publishing : ℕ → List (ℕ × Message ℕ) → Running ℕ ℕ ℕ
publishing message_count messages = record {
  machine = machine messages;
  position = in_ok (record { flow = true; blocked = false; message_count = message_count });
}

publishing-IsCoherent : IsCoherent (publishing 3 queue)
publishing-IsCoherent = (refl, (omega arith, (omega arith, (omega arith, omega arith))))

-- A run: a message is published, then the first two are refused.
abbrev last : Running ℕ ℕ ℕ
last = publishing 4 ((3, letter 3) ∷ (4, letter 4) ∷ [])

publishes : Run (publishing 3 queue) (letter 4 ∷ []) (letter 1 ∷ letter 2 ∷ []) [] last
unfolding step process_confirm
publishes =
    next (message_received (letter 4) true) (publishing 3 queue) (publishing 4 _) last _ [] _ []
      (omega arith) refl
      (next (confirm_received refused) (publishing 4 _) last last _ [] [] [] (omega arith) refl
        (here last))

Run-Balance_example :
    IsCoherent last
    × ((test : Message ℕ → Bool)
        → amount test queue + count test (letter 4 ∷ [])
          ≡ amount test last.machine.unconfirmed_messages
            + count test (letter 1 ∷ letter 2 ∷ [])
            + count test [])
Run-Balance_example = Run-Balance publishes publishing-IsCoherent

recovers_example : Recovers (publishing 3 queue)
recovers_example = recovers 9 10 (publishing 3 queue) publishing-IsCoherent (omega arith)
