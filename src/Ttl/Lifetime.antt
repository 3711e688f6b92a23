-- ===== src/Ttl/Lifetime.antt =====
-- How long an entry lives, src/ttl.rs.
use memlane.Prelude.{
  ℕ, ◌+◌, ◌-◌, ◌*◌, ◌<◌, ◌≡◌, refl, false, none, some, leb, ◌==◌, if◌then◌else◌, arith,
}
use memlane.Slot.{Slot}
use memlane.Ttl.{ttl_to_expiry, is_expired, remaining_ttl_ms}
use memlane.Word.{u64_mod, wrapping_add}

ttl_to_expiry-sum :
    (now ttl_secs : ℕ)
    → 0 < ttl_secs
    → now + ttl_secs * 1000 < u64_mod
    → ttl_to_expiry now ttl_secs ≡ now + ttl_secs * 1000
unfolding ttl_to_expiry wrapping_add
ttl_to_expiry-sum now ttl_secs positive fits = ground arith

-- An entry written at `now` to live `ttl_secs` > 0 seconds, where the sum fits a word: before
-- `now + ttl_secs * 1000` it is alive with the milliseconds up to then remaining, and from then on it is
-- expired with none remaining.
pub is_expired-ttl_to_expiry :
    (now ttl_secs later : ℕ) (s : Slot)
    → 0 < ttl_secs
    → now + ttl_secs * 1000 < u64_mod
    → s.expires_at_ms ≡ ttl_to_expiry now ttl_secs
    → (is_expired later s ≡ leb (now + ttl_secs * 1000) later)
      × (remaining_ttl_ms later s ≡ (
          if leb (now + ttl_secs * 1000) later then none else some (now + ttl_secs * 1000 - later)))
unfolding is_expired remaining_ttl_ms
is_expired-ttl_to_expiry now ttl_secs later s positive fits written =
    let sum = ttl_to_expiry-sum now ttl_secs positive fits in
    let nonzero : (now + ttl_secs * 1000 == 0) ≡ false = ground arith in
    rw (written, sum, nonzero) (refl, refl)

-- An entry written with no time to live never expires, and has no time remaining.
pub is_expired-no_ttl :
    (now later : ℕ) (s : Slot)
    → s.expires_at_ms ≡ ttl_to_expiry now 0
    → (is_expired later s ≡ false) × (remaining_ttl_ms later s ≡ none)
unfolding is_expired remaining_ttl_ms ttl_to_expiry
is_expired-no_ttl now later s written = rw written (refl, refl)
