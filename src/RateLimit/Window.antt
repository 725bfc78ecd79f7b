-- ===== src/RateLimit/Window.antt =====
-- However requests come, no window sees more than `max_req` of them let through.
use dimax_ops_backend.Base.{
  ℕ, ◌+◌, ◌≤◌, ◌<◌, ◌↔◌, ◌≡◌, refl, List, [], ◌∷◌, ◌++◌, arith, leb, if◌then◌else◌, length,
  Bool-cases, inl, inr,
}
use dimax_ops_backend.Uow.{ok, err}
use dimax_ops_backend.RateLimit.{expire, allow}

-- The requests at the times of a list: the times of all that were let through, and the bucket.
unfoldable pub serve : (window max_req : ℕ) → List ℕ → (accepted dq : List ℕ) → List ℕ × List ℕ
serve window max_req [] accepted dq = (accepted, dq)
serve window max_req (now ∷ times) accepted dq =
    let (r, dq') = allow now window max_req dq in
    serve window max_req times (elim r [ ok _ ↦ accepted ++ now ∷ [] | err e ↦ accepted ]) dq'

-- The times rise, from `lo` on.
abbrev pub Rises : (lo : ℕ) → List ℕ → Type 0
Rises lo [] = Unit {0}
Rises lo (t ∷ ts) = (lo ≤ t) × Rises t ts

-- The number of the times in the window that ends at `now`.
abbrev pub in_window : (now window : ℕ) → List ℕ → ℕ
in_window now window [] = 0
in_window now window (t ∷ ts) = (if leb (t + window) now then 0 else 1) + in_window now window ts

in_window-le : (now window : ℕ) (ts : List ℕ) → in_window now window ts ≤ length ts
in_window-le now window [] = omega arith
in_window-le now window (t ∷ ts) = ground (arith, in_window-le now window ts)

in_window-append :
    (now window : ℕ) (xs ys : List ℕ)
    → in_window now window (xs ++ ys) ≡ in_window now window xs + in_window now window ys
in_window-append now window [] ys = omega arith
in_window-append now window (x ∷ xs) ys = ground (arith, in_window-append now window xs ys)

-- What is dropped is out of this window and of every later one.
expire-in_window :
    (now later window : ℕ) (dq : List ℕ)
    → now ≤ later
    → in_window later window (expire now window dq) ≡ in_window later window dq
unfolding expire
expire-in_window now later window [] h = refl
expire-in_window now later window (t ∷ ts) h =
    ground (arith, expire-in_window now later window ts h)

-- What the bucket knows of all that was let through up to `lo`.
abbrev pub Knows : (lo window max_req : ℕ) → (accepted dq : List ℕ) → Type 0
Knows lo window max_req accepted dq =
    (t : ℕ)
    → lo ≤ t
    → (in_window t window accepted ≡ in_window t window dq)
      × (in_window t window accepted ≤ max_req)

allow-Knows :
    (lo now window max_req : ℕ) (accepted dq : List ℕ)
    → lo ≤ now
    → Knows lo window max_req accepted dq
    → let (r, dq') = allow now window max_req dq in
      Knows now window max_req (elim r [ ok _ ↦ accepted ++ now ∷ [] | err e ↦ accepted ]) dq'
unfolding allow
allow-Knows lo now window max_req accepted dq h k t le =
    let kept = expire now window dq in
    elim (Bool-cases (leb max_req (length kept))) [
      | inl full ↦ ground (arith, k t, expire-in_window now t window dq le)
      | inr free ↦ ground (
        arith,
        k t,
        expire-in_window now t window dq le,
        in_window-append t window accepted (now ∷ []),
        in_window-append t window kept (now ∷ []),
        in_window-le t window kept,
      )
    ]

abbrev pub last_of : (lo : ℕ) → List ℕ → ℕ
last_of lo [] = lo
last_of lo (t ∷ ts) = last_of t ts

serve-Knows :
    (lo window max_req : ℕ) (times accepted dq : List ℕ)
    → Rises lo times
    → Knows lo window max_req accepted dq
    → let (accepted', dq') = serve window max_req times accepted dq in
      Knows (last_of lo times) window max_req accepted' dq'
unfolding serve
serve-Knows lo window max_req [] accepted dq r k = k
serve-Knows lo window max_req (now ∷ times) accepted dq r k =
    serve-Knows now window max_req times _ _ r.1
      (allow-Knows lo now window max_req accepted dq r.0 k)

-- As long as the clock does not go back, at most max_req of those let through fall into a window.
pub serve-in_window :
    (window max_req : ℕ) (times : List ℕ) (t : ℕ)
    → Rises 0 times
    → last_of 0 times ≤ t
    → in_window t window (serve window max_req times [] []).0 ≤ max_req
serve-in_window window max_req times t r h =
    (serve-Knows 0 window max_req times [] [] r (λ t' le. (refl, omega arith)) t h).1

in_window-length :
    (lo now window : ℕ) (ts : List ℕ)
    → Rises lo ts
    → now < lo + window
    → in_window now window ts ≡ length ts
in_window-length lo now window [] r h = refl
in_window-length lo now window (t ∷ ts) r h = ground (arith, in_window-length t now window ts)

expire-length :
    (lo now window : ℕ) (dq : List ℕ)
    → Rises lo dq
    → length (expire now window dq) ≡ in_window now window dq
unfolding expire
expire-length lo now window [] r = refl
expire-length lo now window (t ∷ ts) r =
    ground (arith, expire-length t now window ts, in_window-length t now window ts)

-- A request is let through exactly when fewer than max_req of the bucket's requests fall into its
-- window, while the bucket is in the order of the clock.
allow-in_window :
    (lo now window max_req : ℕ) (dq : List ℕ)
    → Rises lo dq
    → (((allow now window max_req dq).0 ≡ ok tt) ↔ in_window now window dq < max_req)
unfolding allow
allow-in_window lo now window max_req dq r =
    let same = expire-length lo now window dq r in (λ h. ground arith, λ h. ground arith)
