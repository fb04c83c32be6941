-- ===== src/Core/Confirm.antt =====
-- tom-notifier-core/src/service/confirmations_consumer_service: the delivery callback of
-- confirmations_consumer_service.rs, and the conversion of dto/confirmation.rs.
use Prim.Native.String.{String}
use tom_notifier.Base.{
  ℕ, ◌≡◌, ◌≢◌, ◌⊎◌, refl, inl, inr, true, false, List, Option, none, some, Result, Option-cases,
}
use tom_notifier.Protobuf.{RabbitmqConfirmation}
use tom_notifier.Rabbitmq.Consumer.Delivery.{Consumed, err}
use tom_notifier.Core.Types.{
  RepositoryError, insert_unique_violation, no_document_updated, mongo, Repository,
}

pub record Confirmation : Type 0 where
  pub user_id : ℕ
  pub id : ℕ

-- The decoder, `Uuid::from_str` and `ObjectId::from_str`.
pub record External : Type 0 where
  pub decode : List ℕ → Option RabbitmqConfirmation
  pub uuid_from_str : String → Option ℕ
  pub object_id_from_str : String → Option ℕ

unfoldable pub try_from : External → RabbitmqConfirmation → Option Confirmation
try_from x value = elim (x.uuid_from_str value.user_id) [
  | none ↦ none
  | some user_id ↦ elim (x.object_id_from_str value.id) [
    | none ↦ none
    | some id ↦ some (record { user_id = user_id; id = id })
  ]
]

-- The match on the result of `insert_confirmation`.
unfoldable pub inserted : Result (Unit {0}) RepositoryError → Consumed
inserted (Result.ok _) = Consumed.ok
inserted (Result.err no_document_updated) = Consumed.ok
inserted (Result.err _) = err (record { requeue = true })

-- `execute` up to the repository.
unfoldable pub read : External → List ℕ → Option Confirmation
unfolding try_from
read x content = elim (x.decode content) [ none ↦ none | some message ↦ try_from x message ]

unfoldable pub execute : {Db : Type 0} → External → Repository Db → List ℕ → Db → Db × Consumed
unfolding read inserted
execute x r content db = elim (read x content) [
  | none ↦ (db, err (record { requeue = false }))
  | some c ↦ let i = r.insert_confirmation c.id c.user_id db in (i.0, inserted i.1)
]

-- An answer, and the results of the repository for which it is given.
abbrev pub AnswersTo : Result (Unit {0}) RepositoryError → Consumed → Type 0
AnswersTo result answer =
    ((answer ≡ Consumed.ok) × ((result ≡ Result.ok tt) ⊎ (result ≡ Result.err no_document_updated)))
    ⊎ ((answer ≡ err (record { requeue = true }))
        × (result ≢ Result.ok tt)
        × (result ≢ Result.err no_document_updated))

inserted-AnswersTo :
    (result : Result (Unit {0}) RepositoryError) → AnswersTo result (inserted result)
unfolding inserted
inserted-AnswersTo (Result.ok _) = inl (refl, inl refl)
inserted-AnswersTo (Result.err no_document_updated) = inl (refl, inr refl)
inserted-AnswersTo (Result.err insert_unique_violation) = inr (refl, λ e. cc, λ e. cc)
inserted-AnswersTo (Result.err mongo) = inr (refl, λ e. cc, λ e. cc)

-- A confirmation that cannot be read is refused for good and changes nothing. Any other one is
-- inserted; it is acked if that changed a notification, and also if there was none to change, as on a
-- redelivery; it is put back into the queue exactly on any other error of the database.
pub execute-AnswersTo :
    {Db : Type 0} (x : External) (r : Repository Db) (content : List ℕ) (db : Db)
    → ((read x content ≡ none) × (execute x r content db ≡ (db, err (record { requeue = false }))))
      ⊎ ((c : Confirmation) × (read x content ≡ some c)
          × ((execute x r content db).0 ≡ (r.insert_confirmation c.id c.user_id db).0)
          × AnswersTo (r.insert_confirmation c.id c.user_id db).1 (execute x r content db).1)
unfolding execute
execute-AnswersTo x r content db = elim (Option-cases (read x content)) [
  | inl e ↦ inl (e, rw (e, execute) refl)
  | inr (c, e) ↦ inr (
    c,
    e,
    rw (e, execute) refl,
    rw (e, execute) (inserted-AnswersTo (r.insert_confirmation c.id c.user_id db).1),
  )
]
