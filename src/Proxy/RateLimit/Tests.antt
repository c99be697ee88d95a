-- ===== src/Proxy/RateLimit/Tests.antt =====
-- Runs of the limiter, and its theorems at concrete requests.
use tunnelgate.Prelude.{[], ℕ, ◌≤◌, ◌*◌, true, false, List, ◌∷◌, ◌≡◌, refl, arith, pos, ℕ_eq}
use tunnelgate.Text.{bytes, text_eq}
use tunnelgate.Proxy.RateLimit.{no_buckets, Buckets, allow, Call, answers, allowed_count, store}
use tunnelgate.Proxy.RateLimit.Bound.{allowed_count-le}
use tunnelgate.Proxy.RateLimit.Pruning.{kept_answers, answers-eq-kept_answers}

abbrev home : ℕ → Call
home now = record { key = bytes "GET /"; now = now }

abbrev busy : List Call
busy = home 100 ∷ home 101 ∷ home 102 ∷ record { key = bytes "GET /a"; now = 120 } ∷ home 159 ∷ []

allow_tests :
    (answers no_buckets (pos 2) 60 busy ≡ true ∷ true ∷ false ∷ true ∷ false ∷ [])
    × (allowed_count no_buckets (pos 2) 60 (bytes "GET /") busy ≡ 2)
    × (answers no_buckets (pos 0) 60 busy ≡ true ∷ true ∷ true ∷ true ∷ true ∷ [])
unfolding answers allow allowed_count
allow_tests = (refl, refl, refl)

allowed_count-le_example : allowed_count no_buckets (pos 2) 60 (bytes "GET /") busy ≤ 2 * 2
allowed_count-le_example =
    allowed_count-le no_buckets 2 100 60 (bytes "GET /") busy (omega arith) (omega arith)
      (omega arith)

abbrev used_once : Buckets
used_once = store no_buckets (bytes "GET /") (record { window_start = 100; count = 1 })

answers-eq-kept_answers_example :
    answers no_buckets (pos 2) 60 busy ≡ kept_answers no_buckets (pos 2) 60 busy
answers-eq-kept_answers_example =
    answers-eq-kept_answers no_buckets (pos 2) 60 100 busy (omega arith) (omega arith)
