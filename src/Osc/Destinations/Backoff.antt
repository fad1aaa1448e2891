-- ===== src/Osc/Destinations/Backoff.antt =====
-- The back-off of a destination, on an uptime in milliseconds that wraps around at 2 ^ 32.
use open_deck.Prelude.{
  ℕ, ◌+◌, ◌-◌, ◌%◌, ◌^◌, ◌≤◌, ◌<◌, ◌≡◌, ap, ◌∙◌, Bool, true, false, not, ◌&&◌, lt_or_le, inl, inr,
  Option, none, some, List, [], ◌∷◌, arith, All, ltb,
}
use open_deck.Osc.Destinations.{
  Destination, retry_delay_ms, minus32, retry_active, has_sendable_destination,
}

minus32-before :
    (now d e : ℕ)
    → now < 2 ^ 32
    → d < 2 ^ 31
    → e < d
    → minus32 ((now + d) % 2 ^ 32) ((now + e) % 2 ^ 32) ≡ d - e
minus32-before now d e l m k = omega arith

minus32-after :
    (now d e : ℕ)
    → now < 2 ^ 32
    → d < 2 ^ 31
    → d ≤ e
    → e ≤ d + 2 ^ 31
    → minus32 ((now + d) % 2 ^ 32) ((now + e) % 2 ^ 32) ≡ (2 ^ 32 - (e - d)) % 2 ^ 32
minus32-after now d e l m k j = omega arith

-- A destination that failed at some uptime is left alone until 30 seconds later, and is tried again
-- from then on for 2 ^ 31 milliseconds, even where the uptime wraps around in between.
pub retry_active-window :
    (now elapsed : ℕ)
    → now < 2 ^ 32
    → elapsed ≤ retry_delay_ms + 2 ^ 31
    → retry_active ((now + retry_delay_ms) % 2 ^ 32) ((now + elapsed) % 2 ^ 32)
      ≡ ltb elapsed retry_delay_ms
unfolding retry_active
retry_active-window now elapsed l e = elim (lt_or_le elapsed retry_delay_ms) [
  | inl before ↦
      let v = minus32-before now retry_delay_ms elapsed l (omega arith) before in ground (arith, v)
  | inr after ↦
      let v = minus32-after now retry_delay_ms elapsed l (omega arith) after e in ground (arith, v)
]

-- none of the destinations has failed since it last succeeded
abbrev pub IsFresh : Option Destination → Type 0
IsFresh none = Unit
IsFresh (some d) = d.retry_at_ms ≡ 0

-- whether any destination is configured
abbrev pub is_configured : List (Option Destination) → Bool
is_configured [] = false
is_configured (none ∷ rest) = is_configured rest
is_configured (some d ∷ rest) = true

retry_active-zero : (now : ℕ) → now < 2 ^ 32 → retry_active 0 now ≡ ltb (2 ^ 31) now
unfolding retry_active
retry_active-zero now l = ground arith

-- When no destination has failed since it last succeeded, one is sendable at an uptime of at most
-- 2 ^ 31 milliseconds if there is one at all, but above that, until the uptime wraps around at
-- 2 ^ 32, none is: the zero that stands for "no back-off" is read as a time to come.
pub has_sendable_destination-IsFresh :
    (now : ℕ) (ds : List (Option Destination))
    → now < 2 ^ 32
    → All IsFresh ds
    → has_sendable_destination now ds ≡ (not (ltb (2 ^ 31) now) && is_configured ds)
unfolding has_sendable_destination
has_sendable_destination-IsFresh now [] l f = ground arith
has_sendable_destination-IsFresh now (none ∷ rest) l (f, fs) =
    has_sendable_destination-IsFresh now rest l fs
has_sendable_destination-IsFresh now (some d ∷ rest) l (f, fs) =
    let e = ap (λ t. retry_active t now) f ∙ retry_active-zero now l in
    ground (arith, e, has_sendable_destination-IsFresh now rest l fs)
