-- ===== src/Proxy/RateLimit/Pruning.antt =====
-- Pruning changes no answer: the limiter refines one that keeps every bucket for ever.
use mathlib.Core.Path.{ap₂}
use tunnelgate.Prelude.{
  ℕ, ◌≤◌, ◌<◌, Bool, true, Option, none, some, List, [], ◌∷◌, ◌≡◌, refl, ◌∙◌, arith, ◌⊎◌, inl, inr,
  if◌then◌else◌, ◌==◌, ℕ_eq, ℤ, is_nonpositive, Bool-cases,
}
use tunnelgate.Text.{Text, text_eq, text_eq_iff}
use tunnelgate.Proxy.RateLimit.{
  RateLimitBucket, Buckets, or_zero, survive, is_over, allow, Call, answers,
}
use tunnelgate.Proxy.RateLimit.Bucket.{bucket_step, allow_self, allow_other}

-- The reference: one bucket for each key, and none is ever dropped.
abbrev put : Buckets → Text → Option RateLimitBucket → Buckets
put buckets key bucket k = if key == k then bucket else buckets k

pub kept_answers : Buckets → ℤ → ℕ → List Call → List Bool
kept_answers buckets limit window [] = []
kept_answers buckets limit window (call ∷ calls) =
    let (bucket, allowed) = bucket_step limit window call.now (buckets call.key) in
    allowed ∷ kept_answers (put buckets call.key bucket) limit window calls

-- The clock does not run backwards.
abbrev pub IsOrdered : ℕ → List Call → Type 0
IsOrdered now [] = Unit
IsOrdered now (call ∷ calls) = (now ≤ call.now) × IsOrdered call.now calls

-- A bucket of the limiter and the reference's: the same, or dropped and out of date.
abbrev Agrees : ℕ → ℕ → Option RateLimitBucket → Option RateLimitBucket → Type 0
Agrees window now ours kept =
    (ours ≡ kept) ⊎ ((ours ≡ none) × (is_over (or_zero kept) now window ≡ true))

is_over-later :
    (b : RateLimitBucket) (now later window : ℕ)
    → now ≤ later
    → is_over b now window ≡ true
    → is_over b later window ≡ true
is_over-later b now later window h e = ground arith

Agrees-later :
    (window now later : ℕ) (ours kept : Option RateLimitBucket)
    → now ≤ later
    → Agrees window now ours kept
    → Agrees window later ours kept
Agrees-later window now later ours kept h (inl e) = inl e
Agrees-later window now later ours kept h (inr (e, o)) =
    inr (e, is_over-later (or_zero kept) now later window h o)

Agrees-survive :
    (window now : ℕ) (ours kept : Option RateLimitBucket)
    → Agrees window now ours kept
    → Agrees window now (survive now window ours) kept
Agrees-survive window now none kept a = a
Agrees-survive window now (some b) kept (inl e) = rw (← e) (ground arith)
Agrees-survive window now (some b) kept (inr (e, o)) = cc

-- The two answer alike and agree afterwards.
bucket_step-Agrees :
    (limit : ℤ) (window now : ℕ) (ours kept : Option RateLimitBucket)
    → Agrees window now ours kept
    → ((bucket_step limit window now ours).1 ≡ (bucket_step limit window now kept).1)
      × Agrees window now
          (bucket_step limit window now ours).0
          (bucket_step limit window now kept).0
bucket_step-Agrees limit window now ours kept (inl e) = rw e (refl, inl refl)
bucket_step-Agrees limit window now ours kept (inr (e, o)) =
    elim (Bool-cases (is_nonpositive limit)) [
      | inl p ↦ rw (e, p) (refl, inr (refl, o))
      | inr p ↦ rw (e, p, o) (refl, inl refl)
    ]

module _ (limit : ℤ) (window : ℕ) (h : 0 < window) where
  allow-Agrees :
      (ours kept : Buckets) (key : Text) (now : ℕ)
      → ((k : Text) → Agrees window now (ours k) (kept k))
      → (k : Text)
      → Agrees window now
          ((allow ours key limit window now).0 k)
          (put kept key (bucket_step limit window now (kept key)).0 k)
  allow-Agrees ours kept key now a k = elim (Bool-cases (key == k)) [
    | inl e ↦
        let same = (text_eq_iff key k).0 e in
        rw (e, ← same, (allow_self ours limit window now key h).0)
          (bucket_step-Agrees limit window now (ours key) (kept key) (a key)).1
    | inr e ↦ elim (allow_other ours limit window now key k e) [
      | inl s ↦ rw (e, s) (a k)
      | inr s ↦ rw (e, s) (Agrees-survive window now (ours k) (kept k) (a k))
    ]
  ]

  answers-Agrees :
      (now : ℕ) (ours kept : Buckets) (calls : List Call)
      → IsOrdered now calls
      → ((k : Text) → Agrees window now (ours k) (kept k))
      → answers ours limit window calls ≡ kept_answers kept limit window calls
  unfolding answers kept_answers
  answers-Agrees now ours kept [] o a = refl
  answers-Agrees now ours kept (call ∷ calls) (o, os) a =
      let a' : (k : Text) → Agrees window call.now (ours k) (kept k) =
        λ k. Agrees-later window now call.now (ours k) (kept k) o (a k) in
      ap₂ (λ (b : Bool) (bs : List Bool). b ∷ bs)
        ((allow_self ours limit window call.now call.key h).1
          ∙ (bucket_step-Agrees limit window call.now _ _ (a' call.key)).0)
        (answers-Agrees call.now _ _ calls os (allow-Agrees ours kept call.key call.now a'))

-- For requests that come in the order of their times, the limiter gives the same answers as the
-- reference that never prunes, from any state that both start in.
pub answers-eq-kept_answers :
    (buckets : Buckets) (limit : ℤ) (window start : ℕ) (calls : List Call)
    → 0 < window
    → IsOrdered start calls
    → answers buckets limit window calls ≡ kept_answers buckets limit window calls
answers-eq-kept_answers buckets limit window start calls h o =
    answers-Agrees limit window h start buckets buckets calls o (λ k. inl refl)
