-- ===== src/Hashmap/Probe.antt =====
-- The probe sequence of src/hashmap.rs: from any start it visits every slot exactly once.
use memlane.Arena.{slot_count}
use memlane.Hashmap.{primary_index, probe}
use memlane.Prelude.{ℕ, ◌+◌, ◌-◌, ◌%◌, ◌<◌, ◌≡◌, arith, Bytes}
use memlane.Sip.{siphash}
use memlane.Word.{bit_and_65535}

pub primary_index-lt : (key : Bytes) → primary_index key < slot_count
unfolding primary_index
primary_index-lt key = omega (arith, bit_and_65535 (siphash key))

pub probe-eq-mod : (start i : ℕ) → probe start i ≡ (start + i) % slot_count
unfolding probe
probe-eq-mod start i = bit_and_65535 (start + i)

pub probe-lt : (start i : ℕ) → probe start i < slot_count
probe-lt start i = omega (arith, probe-eq-mod start i)

pub probe-injective :
    (start i j : ℕ) → i < slot_count → j < slot_count → probe start i ≡ probe start j → i ≡ j
probe-injective start i j hi hj e = omega (arith, probe-eq-mod start i, probe-eq-mod start j)

-- The round in which a probe from `start` comes to slot `p`.
pub distance : ℕ → ℕ → ℕ
distance start p = (p + slot_count - start) % slot_count

pub distance-lt : (start p : ℕ) → distance start p < slot_count
unfolding distance
distance-lt start p = omega arith

pub probe-distance :
    (start p : ℕ) → start < slot_count → p < slot_count → probe start (distance start p) ≡ p
unfolding distance
probe-distance start p hs hp =
    omega (arith, probe-eq-mod start ((p + slot_count - start) % slot_count))

-- From any start below `SLOT_COUNT`, each slot is probed in exactly one of the rounds below
-- `SLOT_COUNT`.
pub probe_covers :
    (start p : ℕ)
    → start < slot_count
    → p < slot_count
    → (i : ℕ) × (i < slot_count)
      × (probe start i ≡ p)
      × ((j : ℕ) → j < slot_count → probe start j ≡ p → j ≡ i)
probe_covers start p hs hp = (
  distance start p,
  distance-lt start p,
  probe-distance start p hs hp,
  λ j hj e. omega (
    arith,
    probe-injective start j (distance start p),
    probe-distance start p hs hp,
    distance-lt start p,
  ),
)
