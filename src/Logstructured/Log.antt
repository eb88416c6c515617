-- ===== src/Logstructured/Log.antt =====
-- The interface `Log` of pkg/logstructured/logstructured.go: each method takes the state of the log and
-- returns its results and the state after it.
use kine.Prelude.{ℕ, Bool, Option, List, Bytes}
use kine.Types.{Event, Error}

pub record Log (S : Type 0) : Type 0 where
  pub compact_revision : S → (ℕ × Option Error) × S
  pub current_revision : S → (ℕ × Option Error) × S
  pub list : Bytes → Bytes → ℕ → ℕ → Bool → Bool → S → (ℕ × List Event × Option Error) × S
  pub count : Bytes → Bytes → ℕ → S → (ℕ × ℕ × Option Error) × S
  pub after : Bytes → Bytes → ℕ → ℕ → S → (ℕ × List Event × Option Error) × S
  pub append : Event → S → (ℕ × Option Error) × S
  pub db_size : S → (ℕ × Option Error) × S
  pub compact : ℕ → S → (ℕ × Option Error) × S
