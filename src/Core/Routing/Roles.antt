-- ===== src/Core/Routing/Roles.antt =====
-- Who may create notifications and move the end of their validity.
use tom_notifier.Base.{ℕ, ◌≡◌, ◌∙◌, Result, refl, false, [], ◌∷◌, Option}
use tom_notifier.Auth.{User, has_role, require_all_roles, require_all_roles-first_missing}
use tom_notifier.Core.Types.{InputNotification, Repository, into_response}
use tom_notifier.Core.Producer.{External}
use tom_notifier.Core.Routing.{
  post_notifications_undelivered, put_notifications_undelivered_invalidate_at, Response, empty,
  produce_notifications, for_producers, handle,
}

for_producers-refused :
    {Db : Type 0} (user : User) (db : Db) (response : Response Db)
    → has_role user produce_notifications ≡ false
    → for_producers user db response ≡ record { db = db; produced = []; status = 403; body = empty }
unfolding into_response
for_producers-refused user db response h =
    let e : require_all_roles user (produce_notifications ∷ [])
        ≡ Result.err (record { missing_role = produce_notifications }) =
      require_all_roles-first_missing user (produce_notifications ∷ []) ∙ rw h refl in
    rw (e, for_producers) refl

-- A user without the role for producing can neither create a notification nor move the end of its
-- validity: the answer is 403, the database is untouched, and nothing is announced.
pub producers_only :
    {Db : Type 0} (x : External) (r : Repository Db) (max_content_len now created_at : ℕ)
    (meanwhile : Db → Db) (user : User) (db : Db) (n : InputNotification) (id : ℕ)
    (invalidate_at : Option ℕ)
    → has_role user produce_notifications ≡ false
    → let refused : Response Db = record { db = db; produced = []; status = 403; body = empty } in
      (handle x r max_content_len now created_at meanwhile
          (post_notifications_undelivered n)
          user
          db
        ≡ refused)
      × (handle x r max_content_len now created_at meanwhile
            (put_notifications_undelivered_invalidate_at id invalidate_at)
            user
            db
          ≡ refused)
unfolding handle into_response
producers_only x r max_content_len now created_at meanwhile user db n id invalidate_at h =
    (for_producers-refused user db _ h, for_producers-refused user db _ h)
