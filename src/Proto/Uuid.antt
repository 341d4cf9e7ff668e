-- ===== src/Proto/Uuid.antt =====
-- What the code uses of github.com/google/uuid, which is not part of the repository.
use revdial.Common.{ℕ, List, length, Option, some, ◌≡◌}

-- A UUID is its sixteen bytes. `from_bytes` is `uuid.FromBytes`, which is documented to fail unless
-- the slice has sixteen bytes.
pub record Uuid : Type 0 where
  pub from_bytes : List ℕ → Option (List ℕ)
  pub from_bytes_sixteen : (b : List ℕ) → length b ≡ 16 → from_bytes b ≡ some b
