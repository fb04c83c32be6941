-- ===== src/Rabbitmq/Producer/Machine/Runs.antt =====
-- Whole runs of the producer's state machine: sequences of events, with what they took from the
-- channel of messages, what they sent to it, and what was acknowledged.
use mathlib.Core.Path.{subst}
use tom_notifier.Base.{◌+◌, ◌≡◌, List, [], ◌++◌, arith, count, count-append, Bool}
use tom_notifier.Rabbitmq.Producer.Defs.{Message}
use tom_notifier.Rabbitmq.Producer.Types.{Effect, Event, done, Running}
use tom_notifier.Rabbitmq.Producer.Machine.{step}
use tom_notifier.Rabbitmq.Producer.Machine.Amounts.{amount, sent}
use tom_notifier.Rabbitmq.Producer.Machine.Coherent.{
  IsCoherent, Fits, CoherentAfter, step-IsCoherent,
}
use tom_notifier.Rabbitmq.Producer.Machine.Conservation.{
  received, acknowledges, Balance, BalanceAfter, step-Balance,
}

module _ {P C Ch : Type 0} where
  pub data Run
      : Running P C Ch
        → List (Message P)
        → List (Message P)
        → List (Message P)
        → Running P C Ch
        → Type 0 where
    here : (r : Running P C Ch) → Run r [] [] [] r
    next :
        (event : Event P C Ch) (r t u : Running P C Ch) (effects : List (Effect P Ch))
        (taken scheduled acked : List (Message P))
        → Fits r.position
        → step event r ≡ done (t, effects)
        → Run t taken scheduled acked u
        → Run r
            (received event ++ taken)
            (sent effects ++ scheduled)
            (acknowledges event r.machine.unconfirmed_messages ++ acked)
            u

  -- One step that is done, with its facts.
  step_facts :
      (event : Event P C Ch) (r t : Running P C Ch) (effects : List (Effect P Ch))
      → Fits r.position
      → step event r ≡ done (t, effects)
      → IsCoherent r
      → IsCoherent t
        × ((test : Message P → Bool)
            → Balance test event r.machine.unconfirmed_messages (t, effects))
  step_facts event r t effects fits e h = (
    subst CoherentAfter e (step-IsCoherent event r h fits),
    λ test.
        subst (BalanceAfter test event r.machine.unconfirmed_messages) e
          (step-Balance test event r h),
  )

  -- A run from a coherent state, within 2^64 messages of one `ok_state`, ends in one. For each test on messages, as many messages that pass
  -- it were in the queue at first or taken from the channel, as are in the queue at the end, were
  -- sent to the channel again, or were acknowledged.
  pub Run-Balance :
      {r u : Running P C Ch} {taken scheduled acked : List (Message P)}
      → Run r taken scheduled acked u
      → IsCoherent r
      → IsCoherent u
        × ((test : Message P → Bool)
            → amount test r.machine.unconfirmed_messages + count test taken
              ≡ amount test u.machine.unconfirmed_messages
                + count test scheduled
                + count test acked)
  Run-Balance (here r) h = (h, λ test. omega arith)
  Run-Balance (next event r t u effects taken scheduled acked fits e run) h =
      let (ht, balance) = step_facts event r t effects fits e h in
      let (hu, rest) = Run-Balance run ht in
      (
        hu,
        λ test. omega (
          arith,
          balance test,
          rest test,
          count-append test (received event) taken,
          count-append test (sent effects) scheduled,
          count-append test (acknowledges event r.machine.unconfirmed_messages) acked,
        ),
      )
