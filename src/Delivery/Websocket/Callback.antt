-- ===== src/Delivery/Websocket/Callback.antt =====
-- tom-notifier-ws-delivery/src/service/websockets_service/websocket_confirmation_callback.rs. The
-- connections of several users share one message and so one callback, whose flag lies in a store.
use Prim.Native.String.{String}
use tom_notifier.Base.{
  ℕ, ◌≡◌, refl, Bool, true, false, List, [], ◌∷◌, ◌++◌, if◌then◌else◌, any, ◌==◌, arith, ==-refl,
}

-- The flags that are set.
abbrev pub Flags : Type 0
Flags = List ℕ

-- `was_called` is the place of the flag in the store.
pub record ConfirmationCallback : Type 0 where
  pub was_called : ℕ
  pub id : String

-- `RabbitmqConfirmationProtobuf`, with the user's id before it is written as text.
pub record Confirmation : Type 0 where
  pub user_id : ℕ
  pub id : String

abbrev pub is_set : ℕ → Flags → Bool
is_set flag flags = any (λ f. f == flag) flags

-- `AtomicBool::swap(true)`.
abbrev pub swap : ℕ → Flags → Flags × Bool
swap flag flags = if is_set flag flags then (flags, true) else (flag ∷ flags, false)

-- `WebSocketConfirmationCallback::new`: `flag` is a fresh place, whose flag is not set.
unfoldable pub new : ℕ → String → ConfirmationCallback
new flag id = record { was_called = flag; id = id }

-- The store after it, and the confirmations that it sends.
unfoldable pub execute : ConfirmationCallback → ℕ → Flags → Flags × List Confirmation
execute callback user_id flags =
    let (flags', was_called) = swap callback.was_called flags in
    if was_called
    then (flags', [])
    else (flags', record { user_id = user_id; id = callback.id } ∷ [])

-- Executions of one callback by several users, one after the other.
unfoldable pub execute_all : ConfirmationCallback → List ℕ → Flags → Flags × List Confirmation
execute_all callback [] flags = (flags, [])
execute_all callback (user_id ∷ users) flags =
    let first = execute callback user_id flags in
    let rest = execute_all callback users first.0 in (rest.0, first.1 ++ rest.1)

execute_all_called :
    (callback : ConfirmationCallback) (users : List ℕ) (flags : Flags)
    → is_set callback.was_called flags ≡ true
    → execute_all callback users flags ≡ (flags, [])
unfolding execute_all execute
execute_all_called callback [] flags h = refl
execute_all_called callback (user_id ∷ users) flags h =
    rw h (ground (arith, execute_all_called callback users flags h))

-- Of all the users who confirm a message that they share, only the first is reported: the callback
-- sends one confirmation, for that user, and none for anyone else.
pub only_first_user_is_confirmed :
    (callback : ConfirmationCallback) (user_id : ℕ) (users : List ℕ) (flags : Flags)
    → is_set callback.was_called flags ≡ false
    → (execute_all callback (user_id ∷ users) flags).1
      ≡ record { user_id = user_id; id = callback.id } ∷ []
unfolding execute_all execute
only_first_user_is_confirmed callback user_id users flags h = rw h (
    ground (
      arith,
      execute_all_called callback users (callback.was_called ∷ flags)
          (rw (==-refl callback.was_called) refl),
    ))
