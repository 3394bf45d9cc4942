-- ===== src/Tlc/Commitment.antt =====
-- `CommitmentNumbers` of fiber/src/fiber/channel.rs. The two numbers are `u64`; an increment that
-- overflows panics.
use ai_ckb_backend.Common.{ℕ, Bool, ◌&&◌, ◌==◌}
use ai_ckb_backend.Common.Outcome.{Outcome, ok, add_u64, ◌>>=◌}

pub record CommitmentNumbers : Type 0 where
  pub local : ℕ
  pub remote : ℕ

abbrev pub initial_commitment_number : ℕ
initial_commitment_number = 0

unfoldable pub new : CommitmentNumbers
new = record { local = initial_commitment_number; remote = initial_commitment_number }

unfoldable pub get_local : CommitmentNumbers → ℕ
get_local c = c.local

unfoldable pub get_remote : CommitmentNumbers → ℕ
get_remote c = c.remote

unfoldable pub increment_local {ℓ} : {E : Type ℓ} → CommitmentNumbers → Outcome E CommitmentNumbers
increment_local c = do local ← add_u64 c.local 1; ok (record c { local = local })

unfoldable pub increment_remote {ℓ} : {E : Type ℓ} → CommitmentNumbers → Outcome E CommitmentNumbers
increment_remote c = do remote ← add_u64 c.remote 1; ok (record c { remote = remote })

unfoldable pub flip : CommitmentNumbers → CommitmentNumbers
flip c = record { local = c.remote; remote = c.local }

-- The derived `PartialEq`.
abbrev pub same : CommitmentNumbers → CommitmentNumbers → Bool
same a b = a.local == b.local && a.remote == b.remote
