-- ===== src/Tests/Limiter.antt =====
-- The rate limiter on a few calls.
use quackapi.Base.{ℕ, ◌+◌, ◌≤◌, [], ◌∷◌, ◌≡◌, refl, arith}
use quackapi.Text.{Text, codes, text_eq}
use quackapi.RateLimit.{RateLimitEntry, Entries, lookup}
use quackapi.RateLimit.Keys.{rate_key_injective}
use quackapi.RateLimit.Quota.{Call, allowed_calls, allowed_calls_bound}

abbrev orders_ann : Text
orders_ann = codes "6:orders|ip:ann"

abbrev one_used : RateLimitEntry
one_used = record { count = 1; expires = 1000 }

abbrev table : Entries
table = (orders_ann, one_used) ∷ []

abbrev call_at : ℕ → Call
call_at now = record {
  now = now;
  route = codes "orders";
  client = codes "ip:ann";
  limit = 2;
  per_sec = 60;
}

allowed_calls_bound_example :
    1 + allowed_calls orders_ann (call_at 10 ∷ call_at 20 ∷ call_at 30 ∷ []) table ≤ 2
unfolding lookup text_eq
allowed_calls_bound_example =
    allowed_calls_bound orders_ann 2 one_used (call_at 10 ∷ call_at 20 ∷ call_at 30 ∷ []) table refl
      (omega arith) (omega arith, λ h. refl, (omega arith, λ h. refl, (omega arith, λ h. refl, tt)))

rate_key_injective_example : (codes "a|" ≡ codes "a|") × (codes "b" ≡ codes "b")
rate_key_injective_example =
    rate_key_injective (codes "a|") (codes "a|") (codes "b") (codes "b") refl
