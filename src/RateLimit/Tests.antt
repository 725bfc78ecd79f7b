-- ===== src/RateLimit/Tests.antt =====
-- The rate limiter at concrete inputs.
use dimax_ops_backend.Base.{◌≤◌, [], ◌∷◌, arith}
use dimax_ops_backend.RateLimit.Window.{serve, in_window, serve-in_window}

serve-in_window_example : in_window 75 60 (serve 60 2 (10 ∷ 20 ∷ 30 ∷ 72 ∷ []) [] []).0 ≤ 2
serve-in_window_example =
    serve-in_window 60 2 (10 ∷ 20 ∷ 30 ∷ 72 ∷ []) 75
      (omega arith, (omega arith, (omega arith, (omega arith, tt)))) (omega arith)
