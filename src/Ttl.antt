-- ===== src/Ttl.antt =====
-- src/ttl.rs: expiry times in Unix milliseconds. `SystemTime::now` is outside the program: what
-- `now_ms` reads is an argument. Sums and products are those of a release build, which wrap.
pub mod Lifetime
use memlane.Prelude.{
  ℕ, ◌-◌, ◌*◌, ◌%◌, Bool, true, false, not, Option, none, some, leb, ◌==◌, if◌then◌else◌,
}
use memlane.Slot.{Slot, state_occupied, state_tombstone, compare_exchange}
use memlane.Word.{u64_mod, wrapping_add}

unfoldable pub ttl_to_expiry : ℕ → ℕ → ℕ
unfolding wrapping_add
ttl_to_expiry now ttl_secs =
    if ttl_secs == 0 then 0 else wrapping_add now (ttl_secs * 1000 % u64_mod)

unfoldable pub is_expired : ℕ → Slot → Bool
is_expired now s = let expiry = s.expires_at_ms in if expiry == 0 then false else leb expiry now

-- The slot after the transition OCCUPIED → TOMBSTONE.
unfoldable pub bury : Slot → Slot
unfolding compare_exchange
bury s = (compare_exchange state_occupied state_tombstone s).0

unfoldable pub lazy_evict_if_expired : ℕ → Slot → Slot × Bool
unfolding is_expired bury
lazy_evict_if_expired now s = if not (is_expired now s) then (s, false) else (bury s, true)

unfoldable pub remaining_ttl_ms : ℕ → Slot → Option ℕ
remaining_ttl_ms now s =
    let expiry = s.expires_at_ms in
    if expiry == 0 then none else if leb expiry now then none else some (expiry - now)
