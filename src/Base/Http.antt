-- ===== src/Base/Http.antt =====
-- What a request ends with: a value, an HTTPException with its status code, or an exception that no
-- handler catches (status 500).
use Prim.Native.Nat.{ℕ}

pub data Response {ℓ} (A : Type ℓ) : Type ℓ where
  reply : A → Response A
  http_error : ℕ → Response A
  server_error : Response A
