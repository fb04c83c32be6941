-- ===== src/Tests/Unary.antt =====
-- Libraries that write numbers in unary, for runs of both programs together.
use Prim.Native.String.{String, len, ◌++◌ as ◌+++◌}
use text.Mathlib.TextPositions.{len-append}
use tom_notifier.Base.{ℕ, zero, suc, ◌≡◌, ◌∙◌, ap, refl, List, [], some, arith}
use tom_notifier.Protobuf.{RabbitmqNotification}
use tom_notifier.Core.Producer as Core
use tom_notifier.Delivery.Consume as Consume
use tom_notifier.Exchange.{Fits}

unfoldable pub unary : ℕ → String
unary zero = ""
unary (suc n) = "1" +++ unary n

pub len-unary : (n : ℕ) → len (unary n) ≡ n
unfolding unary
len-unary zero = refl
len-unary (suc n) = len-append "1" (unary n) ∙ omega (arith, len-unary n)

abbrev pub writer : Core.External
writer = record { to_hex = unary; to_string = unary; unix_timestamp = λ t. t; nanosecond = λ t. 0 }

-- A reader with a decoder of messages.
abbrev pub reader_of : (List ℕ → RabbitmqNotification) → Consume.External
reader_of message_of = record {
  decode = λ content. some (message_of content);
  encode = λ m. [];
  from_str = λ text. some (len text);
  parse_str = λ text. some (len text);
  from_unix_timestamp = λ seconds. some seconds;
  replace_nanosecond = λ datetime nanos. some datetime;
}

pub reader_of-Fits :
    (message_of : List ℕ → RabbitmqNotification) → Fits writer (reader_of message_of)
reader_of-Fits message_of = record {
  from_str-to_string = λ user_id. ap some (len-unary user_id);
  parse_str-to_hex = λ id. ap some (len-unary id);
  seconds = λ t. t;
  from_unix_timestamp-seconds = λ t. refl;
  replace_nanosecond-seconds = λ t. refl;
}
