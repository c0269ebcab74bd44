-- ===== src/Error.antt =====
-- crates/nux-core/src/error.rs: the errors of the library. The texts that the variants carry are
-- for the local journal and stay out of the model.
use nux_auth.Prelude.{ℕ, Result}

-- The kinds of `io::Error` that the program makes itself or passes on.
pub data IoError : Type 0 where
  invalid_data unexpected_eof other : IoError

pub data NuxError : Type 0 where
  identity : NuxError
  insecure_key_permissions : ℕ → NuxError
  io : IoError → NuxError
  network transport dial access_denied protocol tunnel config : NuxError

abbrev pub IoResult : Type 0 → Type 0
IoResult = Result IoError

abbrev pub NuxResult : Type 0 → Type 0
NuxResult = Result NuxError
