-- ===== src/Mongo.antt =====
-- What the database's driver returns, for the repositories of both programs.
pub mod Indexes
use tom_notifier.Base.{ℕ}

-- An error of the driver: a write error with its code, or another one.
pub data DriverError : Type 0 where
  write_error : ℕ → DriverError
  other_error : DriverError

-- The id that `insert_one` returns.
pub data InsertedId : Type 0 where
  object_id : ℕ → InsertedId
  other_id : InsertedId

abbrev pub duplicate_key_code : ℕ
duplicate_key_code = 11000
