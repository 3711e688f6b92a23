-- ===== src/Hashmap/SafeRead.antt =====
-- GET, EXISTS and DEL of src/hashmap.rs keep an arena valid, whatever hashes collide.
use memlane.Arena.{Arena, slot_count, slot, slot_mut}
use memlane.Hashmap.Bury.{bury-IsValid}
use memlane.Hashmap.Invariant.{Occupied, IsValid, Stores}
use memlane.Hashmap.Probe.{probe-lt}
use memlane.Hashmap.Refine.{header-IsValid}
use memlane.Hashmap.Steps.{run}
use memlane.Hashmap.{Clock, probe, get_loop, get, exists, del_loop, del, fetch_sub_used}
use memlane.Prelude.{
  ℕ, zero, suc, ◌≡◌, refl, Bool, true, false, not, ◌==◌, Bytes, bytes_eq, arith, if◌then◌else◌,
}
use memlane.Sip.{siphash}
use memlane.Slot.{Slot, state_empty, state_occupied, state_tombstone, read_key, compare_exchange}
use memlane.Ttl.{bury, lazy_evict_if_expired}

-- What holds of both branches holds of the test.
pub both {ℓ κ} :
    {A : Type ℓ} (P : A → Type κ) (b : Bool) {x y : A}
    → (b ≡ true → P x)
    → (b ≡ false → P y)
    → P (if b then x else y)
both P true hx hy = hx refl
both P false hx hy = hy refl

abbrev pub Keeps {ℓ} : {R : Type ℓ} → Arena × R → Type 0
Keeps run = IsValid run.0

pub occupied_of : (s : Slot) → (s.state == state_occupied) ≡ true → Occupied s
occupied_of s e = ground arith

pub lazy_evict-true :
    (now : ℕ) (s : Slot)
    → (lazy_evict_if_expired now s).1 ≡ true
    → (lazy_evict_if_expired now s).0 ≡ bury s
unfolding lazy_evict_if_expired
lazy_evict-true now s e = ground arith

pub lazy_evict-false :
    (now : ℕ) (s : Slot)
    → (lazy_evict_if_expired now s).1 ≡ false
    → (lazy_evict_if_expired now s).0 ≡ s
unfolding lazy_evict_if_expired
lazy_evict-false now s e = ground arith

pub here :
    (a : Arena) (start i : ℕ)
    → Occupied (a.slots (probe start i))
    → Stores a (read_key (a.slots (probe start i))) (probe start i)
here a start i o = record { inside = probe-lt start i; occupied = o; key_eq = refl }

get_loop-IsValid :
    (clock : Clock) (key : Bytes) (hash start : ℕ) (a : Arena) (left i : ℕ)
    → IsValid a
    → Keeps (get_loop clock key hash start a left i)
unfolding get_loop slot
get_loop-IsValid clock key hash start a zero i v = v
get_loop-IsValid clock key hash start a (suc left) i v =
    let s = a.slots (probe start i) in
    let rec = get_loop-IsValid clock key hash start a left (suc i) v in
    both Keeps (s.state == state_empty) (λ _. v)
      λ _.
        both Keeps (s.state == state_tombstone) (λ _. rec)
          λ _.
            both Keeps (s.state == state_occupied)
              (λ o.
                both Keeps (not (s.fingerprint == hash)) (λ _. rec)
                  λ _.
                    both Keeps (lazy_evict_if_expired (clock i) s).1
                      (λ dead.
                        rw (lazy_evict-true (clock i) s dead)
                          (bury-IsValid v (here a start i (occupied_of s o))))
                      λ _.
                        both Keeps
                          (not (bytes_eq (read_key (lazy_evict_if_expired (clock i) s).0) key))
                          (λ _. rec) (λ _. v))
              (λ _. rec)

pub get-IsValid :
    (clock : Clock) (a : Arena) (key : Bytes) → IsValid a → IsValid (get clock a key).0
unfolding get
get-IsValid clock a key v = get_loop-IsValid clock key (siphash key) _ a slot_count 0 v

pub exists-IsValid :
    (clock : Clock) (a : Arena) (key : Bytes) → IsValid a → IsValid (exists clock a key).0
unfolding exists
exists-IsValid clock a key v = get-IsValid clock a key v

cas-bury : (s : Slot) → (compare_exchange state_occupied state_tombstone s).0 ≡ bury s
unfolding bury
cas-bury s = refl

del_loop-IsValid :
    (key : Bytes) (hash start : ℕ) (a : Arena) (left i : ℕ)
    → IsValid a
    → Keeps (del_loop key hash start a left i)
unfolding del_loop slot fetch_sub_used
del_loop-IsValid key hash start a zero i v = v
del_loop-IsValid key hash start a (suc left) i v =
    let s = a.slots (probe start i) in
    let rec = del_loop-IsValid key hash start a left (suc i) v in
    both Keeps (s.state == state_empty) (λ _. v)
      λ _.
        both Keeps (s.state == state_tombstone) (λ _. rec)
          λ _.
            both Keeps (s.state == state_occupied)
              (λ o.
                both Keeps (not (s.fingerprint == hash)) (λ _. rec)
                  λ _.
                    both Keeps (not (bytes_eq (read_key s) key)) (λ _. rec)
                      λ _.
                        both Keeps (compare_exchange state_occupied state_tombstone s).1
                          (λ _.
                            header-IsValid _
                              {a = slot_mut a (probe start i)
                                (compare_exchange state_occupied state_tombstone s).0}
                              (rw (cas-bury s) (bury-IsValid v (here a start i (occupied_of s o)))))
                          (λ _. rec))
              (λ _. rec)

pub del-IsValid : (a : Arena) (key : Bytes) → IsValid a → IsValid (del a key).0
unfolding del
del-IsValid a key v = del_loop-IsValid key (siphash key) _ a slot_count 0 v
