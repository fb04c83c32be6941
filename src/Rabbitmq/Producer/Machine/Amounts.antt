-- ===== src/Rabbitmq/Producer/Machine/Amounts.antt =====
-- Counts of the messages in the queue, before and after confirms, by a test on messages.
use tom_notifier.Base.{
  ℕ, ◌+◌, ◌≡◌, refl, inl, inr, Bool, List, [], ◌∷◌, ◌++◌, Option, none, some, arith, Bool-cases,
  Option-cases, count, count-append,
}
use tom_notifier.Rabbitmq.Retry.{retry}
use tom_notifier.Rabbitmq.Producer.Defs.{
  Message, PublisherConfirm, PublisherConfirmVariant, process_confirm,
}
use tom_notifier.Rabbitmq.Producer.Confirm.{
  IsSortedAbove, covers, kept, taken, messages, resent, process_confirm-covers,
}
use tom_notifier.Rabbitmq.Producer.Types.{
  Effect, messages_tx_send, Progress, unpolled, polled, Outcome, done, sends,
}
use tom_notifier.Rabbitmq.Producer.States.{recreate, drain}
use tom_notifier.Rabbitmq.Producer.Machine.Coherent.{
  IsSortedWithin, IsSortedWithin-above, process_confirm-IsSortedWithin,
}

module _ {P : Type 0} where
  -- What a confirm acknowledges: the messages that it covers, if it is an ack.
  abbrev pub acknowledged : PublisherConfirmVariant → List (ℕ × Message P) → List (Message P)
  acknowledged PublisherConfirmVariant.ack queue = messages queue
  acknowledged PublisherConfirmVariant.nack queue = []

  -- What the confirms that are left acknowledge, one after the other.
  abbrev pub drained : List PublisherConfirm → List (ℕ × Message P) → List (Message P)
  drained [] queue = []
  drained (confirm ∷ confirms) queue =
      acknowledged confirm.variant (taken (covers confirm) queue)
      ++ drained confirms (process_confirm confirm queue).0

  module _ (test : Message P → Bool) where
    abbrev pub amount : List (ℕ × Message P) → ℕ
    amount queue = count test (messages queue)

    count_split :
        (t : ℕ → Bool) (queue : List (ℕ × Message P))
        → amount queue ≡ amount (kept t queue) + amount (taken t queue)
    count_split t [] = omega arith
    count_split t (e ∷ queue) = elim (Bool-cases (t e.0)) [
      | inl out ↦ rw out (omega (arith, count_split t queue))
      | inr stay ↦ rw stay (omega (arith, count_split t queue))
    ]

    resent_or_acknowledged :
        (v : PublisherConfirmVariant) (queue : List (ℕ × Message P))
        → amount queue ≡ count test (resent v queue) + count test (acknowledged v queue)
    resent_or_acknowledged PublisherConfirmVariant.ack queue = omega arith
    resent_or_acknowledged PublisherConfirmVariant.nack queue = omega arith

    pub process_confirm-amount :
        (confirm : PublisherConfirm) (n : ℕ) (queue : List (ℕ × Message P))
        → IsSortedAbove n queue
        → amount queue
          ≡ amount (process_confirm confirm queue).0
            + count test (process_confirm confirm queue).1
            + count test (acknowledged confirm.variant (taken (covers confirm) queue))
    process_confirm-amount confirm n queue s = rw (process_confirm-covers confirm n queue s) (
        omega (
          arith,
          count_split (covers confirm) queue,
          resent_or_acknowledged confirm.variant (taken (covers confirm) queue),
        ))

    pub drain-amount :
        (confirms : List PublisherConfirm) (hi : ℕ) (queue : List (ℕ × Message P))
        → IsSortedWithin 0 hi queue
        → amount queue
          ≡ amount (drain confirms queue).0
            + count test (drain confirms queue).1
            + count test (drained confirms queue)
    unfolding drain
    drain-amount [] hi queue s = omega arith
    drain-amount (confirm ∷ confirms) hi queue s =
        let q = (process_confirm confirm queue).0 in
        let gone = acknowledged confirm.variant (taken (covers confirm) queue) in
        omega (
          arith,
          process_confirm-amount confirm 0 queue (IsSortedWithin-above 0 hi queue s),
          drain-amount confirms hi q (process_confirm-IsSortedWithin confirm 0 hi queue s),
          count-append test (process_confirm confirm queue).1 (drain confirms q).1,
          count-append test gone (drained confirms q),
        )

    pub amount-append : (xs ys : List (ℕ × Message P)) → amount (xs ++ ys) ≡ amount xs + amount ys
    amount-append [] ys = omega arith
    amount-append (e ∷ xs) ys = omega (arith, amount-append xs ys)

module _ {P Ch : Type 0} where
  -- The messages that some effects send to the channel of messages.
  abbrev pub sent : List (Effect P Ch) → List (Message P)
  sent [] = []
  sent (messages_tx_send m ∷ effects) = m ∷ sent effects
  sent (_ ∷ effects) = sent effects

module _ {P : Type 0} (Ch : Type 0) where
  pub sent-sends : (ms : List (Message P)) → sent {Ch = Ch} (sends ms) ≡ ms
  sent-sends [] = refl
  sent-sends (m ∷ ms) = rw (sent-sends ms)

  pub sent-sends-append :
      (ms : List (Message P)) (effects : List (Effect P Ch))
      → sent (sends ms ++ effects) ≡ ms ++ sent effects
  sent-sends-append [] effects = refl
  sent-sends-append (m ∷ ms) effects = rw (sent-sends-append ms effects)

module _ (P Ch : Type 0) where
  -- Recreating the channel sends no message.
  abbrev pub SendsNothing : Outcome (Ch × List (Effect P Ch) × Bool) → Type 0
  SendsNothing (done r) = sent r.1 ≡ []
  SendsNothing _ = Unit {0}

  pub recreate-SendsNothing :
      {C : Type 0} (progress : Progress Ch) (connection : Option C) (channel : Ch)
      → SendsNothing (recreate {P = P} progress connection channel)
  unfolding recreate
  recreate-SendsNothing unpolled connection channel = refl
  recreate-SendsNothing (polled opens registers) none channel = tt
  recreate-SendsNothing (polled opens registers) (some c) channel =
      elim (Option-cases (retry opens)) [
        | inl e ↦ rw (e, recreate) refl
        | inr (opened, e) ↦ elim (Option-cases (retry registers)) [
          | inl f ↦ rw (e, f, recreate) refl
          | inr (t, f) ↦ rw (e, f, recreate) refl
        ]
      ]
