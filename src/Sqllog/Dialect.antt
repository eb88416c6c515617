-- ===== src/Sqllog/Dialect.antt =====
-- The interface Dialect of pkg/server/types.go, as the SQL log uses it: each method takes the state of
-- the database and returns its results and the state after it.
use kine.Prelude.{ℕ, Bool, Option, Bytes}
use kine.Types.{Error}
use kine.Sqllog.Rows.{Rows}

pub record Dialect (D : Type 0) : Type 0 where
  pub list_current : Bytes → Bytes → ℕ → Bool → Bool → D → (Rows × Option Error) × D
  pub list : Bytes → Bytes → ℕ → ℕ → Bool → Bool → D → (Rows × Option Error) × D
  pub count_current : Bytes → Bytes → D → (ℕ × ℕ × Option Error) × D
  pub count : Bytes → Bytes → ℕ → D → (ℕ × ℕ × ℕ × Option Error) × D
  pub current_revision : D → (ℕ × Option Error) × D
  pub after : Bytes → Bytes → ℕ → ℕ → D → (Rows × Option Error) × D
  pub insert : Bytes → Bool → Bool → ℕ → ℕ → ℕ → Bytes → D → (ℕ × Option Error) × D
  pub get_compact_revision : D → (ℕ × Option Error) × D
  pub get_size : D → (ℕ × Option Error) × D
  pub translate_start_key : Bytes → Bytes
