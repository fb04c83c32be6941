-- ===== src/Rabbitmq/Consumer/Delivery/Tasks.antt =====
-- The tasks of `AsyncConsumer`: each delivery is processed by a task of its own, and the responses
-- go through one task, which ends with the consumer.
use tom_notifier.Base.{
  ℕ, zero, suc, ◌+◌, ◌≡◌, refl, inl, inr, ◌⊎◌, Bool-cases, Bool, true, false, List, [], ◌∷◌, ◌++◌,
  Option, none, some, ◌==◌, if◌then◌else◌, arith, count, count-append, remove_at, Option-cases,
}
use tom_notifier.Rabbitmq.Consumer.Delivery.{
  Consumed, err, ChannelCall, basic_ack, basic_nack, processing_task, response_task,
}

-- The deliveries in process, the calls on the channel so far, and whether `response_tx` has a strong
-- sender still, which `AsyncConsumer` holds.
pub record Tasks : Type 0 where
  pub processing : List ℕ
  pub calls : List ChannelCall
  pub listening : Bool

-- `AsyncConsumer::new`.
abbrev pub new : Tasks
new = record { processing = []; calls = []; listening = true }

-- A delivery arrives; the callback of the task at an index ends with a result; the AMQP library drops
-- the consumer.
pub data Event : Type 0 where
  delivered : ℕ → Event
  ended : ℕ → Consumed → Event
  dropped : Event

unfoldable pub consume : ℕ → Tasks → Tasks
consume delivery_tag s = record s { processing = s.processing ++ (delivery_tag ∷ []) }

-- The end of `ProcessingTask::run`, and the response task, which takes what it sends.
unfoldable pub end_task : Option (ℕ × List ℕ) → Consumed → Tasks → Tasks
unfolding processing_task response_task
end_task none result s = s
end_task (some (delivery_tag, rest)) result s = record s {
  processing = rest;
  calls = s.calls ++ response_task (processing_task delivery_tag result s.listening);
}

unfoldable pub step : Event → Tasks → Tasks
unfolding consume end_task
step (delivered delivery_tag) s = consume delivery_tag s
step (ended idx result) s = end_task (remove_at idx s.processing) result s
step dropped s = record s { listening = false }

unfoldable pub run : List Event → Tasks → Tasks
unfolding step
run [] s = s
run (event ∷ events) s = run events (step event s)

-- How often a delivery with a tag arrived, is in process, and was answered.
abbrev pub arrived : ℕ → List Event → ℕ
arrived tag [] = 0
arrived tag (delivered delivery_tag ∷ events) =
    (if delivery_tag == tag then 1 else 0) + arrived tag events
arrived tag (_ ∷ events) = arrived tag events

abbrev pub in_process : ℕ → Tasks → ℕ
in_process tag s = count (λ delivery_tag. delivery_tag == tag) s.processing

abbrev pub answers_to : ℕ → ChannelCall → Bool
answers_to tag (basic_ack delivery_tag multiple) = delivery_tag == tag
answers_to tag (basic_nack delivery_tag multiple requeue) = delivery_tag == tag

abbrev pub answered : ℕ → Tasks → ℕ
answered tag s = count (answers_to tag) s.calls

count-remove_at :
    {A : Type 0} (p : A → Bool) (idx : ℕ) (xs : List A) (x : A) (rest : List A)
    → remove_at idx xs ≡ some (x, rest)
    → count p xs ≡ (if p x then 1 else 0) + count p rest
count-remove_at p idx [] x rest e = cc
count-remove_at p zero (y ∷ xs) x rest e = ground arith
count-remove_at p (suc idx) (y ∷ xs) x rest e = elim (Option-cases (remove_at idx xs)) [
  | inl out ↦ ground arith
  | inr ((z, more), found) ↦ ground (arith, count-remove_at p idx xs z more found)
]

-- Of the deliveries with a tag that came besides those that were there, what is lost; and nothing is
-- while the consumer lives.
pub record Accounted (tag more : ℕ) (s t : Tasks) : Type 0 where
  pub lost : ℕ
  pub balance : in_process tag t + answered tag t + lost ≡ more + in_process tag s + answered tag s
  pub kept : (t.listening ≡ false) ⊎ (lost ≡ 0)

answers-count :
    (tag delivery_tag : ℕ) (result : Consumed)
    → count (answers_to tag) (response_task (processing_task delivery_tag result true))
      ≡ (if delivery_tag == tag then 1 else 0)
unfolding response_task processing_task
answers-count tag delivery_tag Consumed.ok = omega arith
answers-count tag delivery_tag (err e) = omega arith

end_task-Accounted :
    (tag : ℕ) (task : Option (ℕ × List ℕ)) (idx : ℕ) (result : Consumed) (s : Tasks)
    → remove_at idx s.processing ≡ task
    → Accounted tag 0 s (end_task task result s)
unfolding end_task processing_task response_task
end_task-Accounted tag none idx result s e = record {
  lost = 0;
  balance = omega arith;
  kept = inr refl;
}
end_task-Accounted tag (some (delivery_tag, rest)) idx result s e =
    let removed = count-remove_at (λ d. d == tag) idx s.processing delivery_tag rest e in
    elim (Bool-cases s.listening) [
      | inl listens ↦ record {
        lost = 0;
        balance = rw listens (
            omega (
              arith,
              removed,
              answers-count tag delivery_tag result,
              count-append (answers_to tag) s.calls
                  (response_task (processing_task delivery_tag result true)),
            ));
        kept = inr refl;
      }
      | inr deaf ↦ record {
        lost = if delivery_tag == tag then 1 else 0;
        balance = rw deaf (omega (arith, removed, count-append (answers_to tag) s.calls []));
        kept = inl deaf;
      }
    ]

step-Accounted :
    (tag : ℕ) (event : Event) (s : Tasks)
    → Accounted tag (arrived tag (event ∷ [])) s (step event s)
unfolding step consume
step-Accounted tag (delivered delivery_tag) s = record {
  lost = 0;
  balance = omega (arith, count-append (λ d. d == tag) s.processing (delivery_tag ∷ []));
  kept = inr refl;
}
step-Accounted tag (ended idx result) s =
    end_task-Accounted tag (remove_at idx s.processing) idx result s refl
step-Accounted tag dropped s = record { lost = 0; balance = omega arith; kept = inr refl }

-- Nobody listens again.
step-deaf : (event : Event) (s : Tasks) → s.listening ≡ false → (step event s).listening ≡ false
unfolding step consume end_task
step-deaf (delivered delivery_tag) s h = h
step-deaf (ended idx result) s h = ground arith
step-deaf dropped s h = refl

run-deaf :
    (events : List Event) (s : Tasks) → s.listening ≡ false → (run events s).listening ≡ false
unfolding run
run-deaf [] s h = h
run-deaf (event ∷ events) s h = run-deaf events (step event s) (step-deaf event s h)

arrived-cons :
    (tag : ℕ) (event : Event) (events : List Event)
    → arrived tag (event ∷ events) ≡ arrived tag (event ∷ []) + arrived tag events
arrived-cons tag (delivered delivery_tag) events = omega arith
arrived-cons tag (ended idx result) events = omega arith
arrived-cons tag dropped events = omega arith

run-from :
    (tag : ℕ) (events : List Event) (s : Tasks)
    → Accounted tag (arrived tag events) s (run events s)
unfolding run
run-from tag [] s = record { lost = 0; balance = omega arith; kept = inr refl }
run-from tag (event ∷ events) s =
    let first = step-Accounted tag event s in
    let rest = run-from tag events (step event s) in
    record {
      lost = first.lost + rest.lost;
      balance = omega (arith, first.balance, rest.balance, arrived-cons tag event events);
      kept = elim rest.kept [
        | inl deaf ↦ inl deaf
        | inr none_later ↦ elim first.kept [
          | inl deaf ↦ inl (run-deaf events (step event s) deaf)
          | inr none_first ↦ inr (omega (arith, none_first, none_later))
        ]
      ];
    }

-- However deliveries, the ends of their callbacks and the end of the consumer follow each other, each
-- delivery is in process, or answered, or lost, exactly one of them and once; and none is lost while
-- the consumer lives. In particular a tag is never answered more often than it was delivered.
pub run-Accounted :
    (tag : ℕ) (events : List Event) → Accounted tag (arrived tag events) new (run events new)
run-Accounted tag events = run-from tag events new
