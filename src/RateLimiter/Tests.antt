-- ===== src/RateLimiter/Tests.antt =====
-- Requests on a Redis in memory.
use vibranium_quadsquad.Base.{ℕ, ◌≡◌, refl, some, [], ◌∷◌, List, arith, length, if◌then◌else◌}
use vibranium_quadsquad.Base.Int.{pos, ltb_ℤ, ◌≤ℤ◌}
use vibranium_quadsquad.Redis.{two, z_add_entry}
use vibranium_quadsquad.Redis.Model.{Db, memory, memory-SetLaws}
use vibranium_quadsquad.RateLimiter.{RateLimitConfig, RateLimitResult, millis, allow}
use vibranium_quadsquad.RateLimiter.Bound.{
  recent, allow-decides, after_requests, after_requests-Bounded,
}

-- Two requests in a second.
abbrev cfg : RateLimitConfig
cfg = record { key = "ip"; limit = pos 2; window = 1_000_000_000 }

abbrev empty : Db ℕ
empty = record { values = []; sets = [] }

abbrev times : List ℕ
times = 5_000_000 ∷ 6_000_000 ∷ 7_000_000 ∷ []

-- One request was made.
abbrev one_made : Db ℕ
one_made = record { values = []; sets = ("ip", (two 5 5_000_000, 5) ∷ []) ∷ [] }

allow-decides_example :
    let few =
      ltb_ℤ (pos (length (recent (memory ℕ) (memory-SetLaws ℕ) cfg 6_000_000 one_made))) (pos 2) in
    (res : RateLimitResult) × ((allow (memory ℕ) cfg 6_000_000 one_made).0 ≡ some res)
    × (res.is_allowed ≡ few)
    × ((memory ℕ).entries "ip" (allow (memory ℕ) cfg 6_000_000 one_made).1 ≡ (
        if few
        then z_add_entry
            (two (millis 6_000_000) 6_000_000)
            (millis 6_000_000)
            (recent (memory ℕ) (memory-SetLaws ℕ) cfg 6_000_000 one_made)
        else recent (memory ℕ) (memory-SetLaws ℕ) cfg 6_000_000 one_made))
allow-decides_example =
    allow-decides (memory ℕ) (memory-SetLaws ℕ) cfg 6_000_000 one_made refl (omega arith)

after_requests-Bounded_example :
    pos (
      length
        ((memory ℕ).entries "ip" (after_requests (memory ℕ) (memory-SetLaws ℕ) cfg times empty)))
    ≤ℤ pos 2
after_requests-Bounded_example =
    after_requests-Bounded (memory ℕ) (memory-SetLaws ℕ) cfg times empty (λ d. refl) (omega arith)
      (omega arith)
