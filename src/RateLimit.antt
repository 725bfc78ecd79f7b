-- ===== src/RateLimit.antt =====
-- The rate limiter of the public routes (app/api/v1/rate_limit.py): `_allow` on the bucket of one
-- key, which holds the times of the requests that were let through.
pub mod Window
mod Tests
use dimax_ops_backend.Base.{
  ℕ, ◌+◌, Bool, true, false, List, [], ◌∷◌, ◌++◌, leb, if◌then◌else◌, length,
}
use dimax_ops_backend.Domain.{Error, forbidden}
use dimax_ops_backend.Uow.{Result, ok, err}

-- `while dq and dq[0] <= now - window: dq.popleft()`
unfoldable pub expire : (now window : ℕ) → List ℕ → List ℕ
expire now window [] = []
expire now window (t ∷ ts) =
    let rest = expire now window ts in if leb (t + window) now then rest else t ∷ ts

unfoldable pub allow : (now window max_req : ℕ) → List ℕ → Result (Unit {0}) × List ℕ
allow now window max_req dq =
    let kept = expire now window dq in
    if leb max_req (length kept)
    then (err (forbidden "Too many requests. Slow down."), kept)
    else (ok tt, kept ++ now ∷ [])
