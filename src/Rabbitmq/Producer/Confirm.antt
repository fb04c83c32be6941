-- ===== src/Rabbitmq/Producer/Confirm.antt =====
-- What one publisher confirm does, against a description by the set of messages that it covers.
use mathlib.Core.List.{append-nil}
use tom_notifier.Base.{
  ℕ, suc, ◌+◌, ◌≤◌, ◌<◌, ◌≡◌, refl, ap, ◌⊎◌, inl, inr, Bool, not, List, [], ◌∷◌, ◌++◌, none, some,
  arith, leb, ◌==◌, if◌then◌else◌, Bool-cases, filter, position, remove_at, map,
}
use tom_notifier.Rabbitmq.Producer.Defs.{
  Message, PublisherConfirm, PublisherConfirmVariant, on_remove, remove_front, remove_one,
  process_confirm,
}

-- The counts in the queue rise strictly and lie above `n`.
abbrev pub IsSortedAbove {ℓ} : {A : Type ℓ} → ℕ → List (ℕ × A) → Type 0
IsSortedAbove n [] = Unit {0}
IsSortedAbove n (e ∷ queue) = (n < e.0) × IsSortedAbove e.0 queue

-- The messages that a confirm speaks of.
abbrev pub covers : PublisherConfirm → ℕ → Bool
covers confirm message_count =
    if confirm.multiple
    then leb message_count confirm.delivery_tag
    else message_count == confirm.delivery_tag

module _ {P : Type 0} where
  abbrev pub messages : List (ℕ × Message P) → List (Message P)
  messages = map (λ e. e.1)

  -- What a confirm with this variant sends again of the messages that it covers.
  abbrev pub resent : PublisherConfirmVariant → List (ℕ × Message P) → List (Message P)
  resent PublisherConfirmVariant.ack queue = []
  resent PublisherConfirmVariant.nack queue = messages queue

  resent-cons :
      (v : PublisherConfirmVariant) (e : ℕ × Message P) (queue : List (ℕ × Message P))
      → resent v (e ∷ queue) ≡ on_remove v e.1 ++ resent v queue
  unfolding on_remove
  resent-cons PublisherConfirmVariant.ack e queue = refl
  resent-cons PublisherConfirmVariant.nack e queue = refl

  resent-nil : (v : PublisherConfirmVariant) → resent v [] ≡ []
  resent-nil PublisherConfirmVariant.ack = refl
  resent-nil PublisherConfirmVariant.nack = refl

  abbrev pub kept : (ℕ → Bool) → List (ℕ × Message P) → List (ℕ × Message P)
  kept test = filter (λ e. not (test e.0))

  abbrev pub taken : (ℕ → Bool) → List (ℕ × Message P) → List (ℕ × Message P)
  taken test = filter (λ e. test e.0)

  -- Behind a count above the tag, a sorted queue holds only counts above the tag.
  kept_above :
      (tag n : ℕ) (queue : List (ℕ × Message P))
      → tag ≤ n
      → IsSortedAbove n queue
      → (kept (λ k. leb k tag) queue ≡ queue) × (taken (λ k. leb k tag) queue ≡ [])
  kept_above tag n [] h s = (refl, refl)
  kept_above tag n ((k, m) ∷ queue) h s = ground (arith, kept_above tag k queue)

  remove_front_lem :
      (v : PublisherConfirmVariant) (tag n : ℕ) (queue : List (ℕ × Message P))
      → IsSortedAbove n queue
      → remove_front v tag queue
        ≡ (kept (λ k. leb k tag) queue, resent v (taken (λ k. leb k tag) queue))
  unfolding remove_front
  remove_front_lem v tag n [] s = ground (arith, resent-nil v)
  remove_front_lem v tag n ((k, m) ∷ queue) s = elim (Bool-cases (leb k tag)) [
    | inl le ↦
        rw (le, remove_front_lem v tag k queue s.1)
          (ground (arith, resent-cons v (k, m) (taken (λ k. leb k tag) queue)))
    | inr gt ↦ ground (arith, kept_above tag k queue, resent-nil v)
  ]

  kept_other :
      (tag n : ℕ) (queue : List (ℕ × Message P))
      → tag ≤ n
      → IsSortedAbove n queue
      → (kept (λ k. k == tag) queue ≡ queue) × (taken (λ k. k == tag) queue ≡ [])
  kept_other tag n [] h s = (refl, refl)
  kept_other tag n ((k, m) ∷ queue) h s = ground (arith, kept_other tag k queue)

  abbrev Removal : ℕ → ℕ → List (ℕ × Message P) → Type 0
  Removal tag i queue =
      ((position (λ e. e.0 == tag) i queue ≡ none)
        × (kept (λ k. k == tag) queue ≡ queue)
        × (taken (λ k. k == tag) queue ≡ []))
      ⊎ ((j : ℕ) × (e : ℕ × Message P) × (rest : List (ℕ × Message P)) × (position (λ x. x.0 == tag)
              i queue
            ≡ some (i + j))
          × (remove_at j queue ≡ some (e, rest))
          × (kept (λ k. k == tag) queue ≡ rest)
          × (taken (λ k. k == tag) queue ≡ e ∷ []))

  -- In a sorted queue at most one entry has the tag, and it is the one at the found position.
  removal :
      (tag i n : ℕ) (queue : List (ℕ × Message P)) → IsSortedAbove n queue → Removal tag i queue
  removal tag i n [] s = inl (refl, refl, refl)
  removal tag i n ((k, m) ∷ queue) s = elim (Bool-cases (k == tag)) [
    | inl eq ↦ inr (
      0,
      (k, m),
      queue,
      rw eq (ap some (omega arith)),
      refl,
      ground (arith, kept_other tag k queue),
      ground (arith, kept_other tag k queue),
    )
    | inr ne ↦ elim (removal tag (suc i) k queue s.1) [
      | inl (p, kp, tk) ↦ inl (rw ne p, rw (ne, kp), rw (ne, tk))
      | inr (j, e, rest, p, r, kp, tk) ↦ inr (
        suc j,
        e,
        (k, m) ∷ rest,
        rw (ne, p) (ap some (omega arith)),
        rw r,
        rw (ne, kp),
        rw (ne, tk),
      )
    ]
  ]

  remove_one_lem :
      (v : PublisherConfirmVariant) (tag n : ℕ) (queue : List (ℕ × Message P))
      → IsSortedAbove n queue
      → remove_one v tag queue
        ≡ (kept (λ k. k == tag) queue, resent v (taken (λ k. k == tag) queue))
  unfolding remove_one
  remove_one_lem v tag n queue s = elim (removal tag 0 n queue s) [
    | inl (p, kp, tk) ↦ ground (arith, resent-nil v)
    | inr (j, e, rest, p, r, kp, tk) ↦
        ground (arith, resent-cons v e [], resent-nil v, append-nil (on_remove v e.1))
  ]

  -- A confirm removes from the queue of unconfirmed messages exactly those that it covers, keeps
  -- the others in order, and sends again exactly the covered ones, in order, if it is a nack, and
  -- none if it is an ack; provided that the counts in the queue rise strictly.
  pub process_confirm-covers :
      (confirm : PublisherConfirm) (n : ℕ) (queue : List (ℕ × Message P))
      → IsSortedAbove n queue
      → process_confirm confirm queue
        ≡ (kept (covers confirm) queue, resent confirm.variant (taken (covers confirm) queue))
  unfolding process_confirm
  process_confirm-covers confirm n queue s = elim (Bool-cases confirm.multiple) [
    | inl many ↦ rw many (remove_front_lem confirm.variant confirm.delivery_tag n queue s)
    | inr one ↦ rw one (remove_one_lem confirm.variant confirm.delivery_tag n queue s)
  ]
