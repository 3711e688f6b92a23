-- ===== src/Hashmap/Count.antt =====
-- `used_count` of src/hashmap.rs against the number of occupied slots.
pub mod Exact
use memlane.Arena.{Arena, slot_count, slot, slot_mut}
use memlane.Hashmap.Invariant.{Occupied}
use memlane.Hashmap.Probe.{probe-lt}
use memlane.Hashmap.SafeRead.{both, occupied_of}
use memlane.Hashmap.{
  Clock, GetResult, DelResult, probe, get_loop, del_loop, claim_slot, fetch_add_used,
  fetch_sub_used, used_count,
}
use memlane.Prelude.{
  ℕ, zero, suc, ◌+◌, ◌<◌, ◌≤◌, ◌≡◌, refl, ap, ◌⊎◌, inl, inr, false, not, ◌==◌, update, update_self,
  update-ne, Bytes, bytes_eq, arith, if◌then◌else◌,
}
use memlane.Slot.{
  Slot, state_empty, state_occupied, state_tombstone, read_key, write_value, compare_exchange,
}
use memlane.Ttl.{is_expired, lazy_evict_if_expired}
use memlane.Word.{wrapping_add}

abbrev pub one_if_occupied : Slot → ℕ
one_if_occupied s = if s.state == state_occupied then 1 else 0

-- How many of the first slots are occupied.
unfoldable pub occupied_below : ℕ → (ℕ → Slot) → ℕ
occupied_below zero slots = 0
occupied_below (suc n) slots = one_if_occupied (slots n) + occupied_below n slots

-- How many slots of a table are occupied.
unfoldable pub occupied : (ℕ → Slot) → ℕ
unfolding occupied_below
occupied slots = occupied_below slot_count slots

-- The counter in the header is right.
abbrev pub IsExact : Arena → Type 0
IsExact a = used_count a ≡ occupied a.slots

occupied_below-le : (n : ℕ) (f : ℕ → Slot) → occupied_below n f ≤ n
unfolding occupied_below
occupied_below-le zero f = omega arith
occupied_below-le (suc n) f = ground (arith, occupied_below-le n f)

occupied_below-outside :
    (n p : ℕ) (f : ℕ → Slot) (x : Slot)
    → n ≤ p
    → occupied_below n (update f p x) ≡ occupied_below n f
unfolding occupied_below
occupied_below-outside zero p f x le = refl
occupied_below-outside (suc n) p f x le =
    rw (update-ne f p n x (λ e. omega arith), occupied_below-outside n p f x (omega arith)) refl

occupied_below-update :
    (n p : ℕ) (f : ℕ → Slot) (x : Slot)
    → p < n
    → occupied_below n (update f p x) + one_if_occupied (f p)
      ≡ occupied_below n f + one_if_occupied x
unfolding occupied_below
occupied_below-update zero p f x lt = absurd (omega arith)
occupied_below-update (suc n) p f x lt = elim (last_or_before n p lt) [
  | inl e ↦
      rw e (rw (update_self f n x, occupied_below-outside n n f x (omega arith)) (omega arith))
  | inr before ↦
      rw (update-ne f p n x (λ e. omega arith))
        (omega (arith, occupied_below-update n p f x before))
]
  where
    last_or_before : (n p : ℕ) → p < suc n → (p ≡ n) ⊎ (p < n)
    last_or_before n p h = omega arith

none_occupied_below :
    (n : ℕ) (f : ℕ → Slot) → ((p : ℕ) → p < n → (f p).state ≡ state_empty) → occupied_below n f ≡ 0
unfolding occupied_below
none_occupied_below zero f h = refl
none_occupied_below (suc n) f h =
    ground (arith, h n, none_occupied_below n f (λ p lt. h p (omega arith)))

pub none_occupied :
    (f : ℕ → Slot) → ((p : ℕ) → p < slot_count → (f p).state ≡ state_empty) → occupied f ≡ 0
unfolding occupied
none_occupied f h = none_occupied_below slot_count f h

-- What a search for a hash meets has not run out: the entry in the slot of a round, if it has that hash, is alive at the
-- reading of the clock in that round.
abbrev pub IsAlive : (ℕ → ℕ) → ℕ → ℕ → Arena → Type 0
IsAlive clock hash start a =
    (i : ℕ)
    → Occupied (a.slots (probe start i))
    → (a.slots (probe start i)).fingerprint ≡ hash
    → is_expired (clock i) (a.slots (probe start i)) ≡ false

pub alive_stays :
    (now : ℕ) (s : Slot) → is_expired now s ≡ false → (lazy_evict_if_expired now s).1 ≡ false
unfolding lazy_evict_if_expired
alive_stays now s e = rw e refl

occupied-le : (f : ℕ → Slot) → occupied f ≤ slot_count
unfolding occupied
occupied-le f = occupied_below-le slot_count f

-- A write to a slot, and what it does to the count.
occupied_after :
    (a : Arena) (p : ℕ) (x : Slot)
    → p < slot_count
    → occupied (slot_mut a p x).slots + one_if_occupied (a.slots p)
      ≡ occupied a.slots + one_if_occupied x
unfolding slot_mut occupied
occupied_after a p x lt = occupied_below-update slot_count p a.slots x lt

module _ (clock : Clock) (key : Bytes) (hash start : ℕ) {a : Arena}
    (alive : IsAlive clock hash start a) where
  pub get_loop-alive : (left i : ℕ) → (get_loop clock key hash start a left i).0 ≡ a
  unfolding get_loop slot
  get_loop-alive zero i = refl
  get_loop-alive (suc left) i =
      let s = a.slots (probe start i) in
      let rest = get_loop-alive left (suc i) in
      let Same : Arena × GetResult → Type 0 = λ run. run.0 ≡ a in
      both Same (s.state == state_empty) (λ _. refl)
        λ _.
          both Same (s.state == state_tombstone) (λ _. rest)
            λ _.
              both Same (s.state == state_occupied)
                (λ o.
                  both Same (not (s.fingerprint == hash)) (λ _. rest)
                    λ same.
                      both Same (lazy_evict_if_expired (clock i) s).1
                        (λ dead.
                          let live =
                            alive_stays (clock i) s (alive i (occupied_of s o) (ground arith)) in
                          absurd cc)
                        λ _.
                          both Same
                            (not (bytes_eq (read_key (lazy_evict_if_expired (clock i) s).0) key))
                            (λ _. rest) (λ _. refl))
                (λ _. rest)

slot_mut-header : (a : Arena) (p : ℕ) (x : Slot) → (slot_mut a p x).header ≡ a.header
unfolding slot_mut
slot_mut-header a p x = refl

one_if-Occupied : (s : Slot) → Occupied s → one_if_occupied s ≡ 1
one_if-Occupied s o = ground arith

one_if_free : (s : Slot) → ¬ Occupied s → one_if_occupied s ≡ 0
one_if_free s free = ground arith

one_if_swapped :
    (s : Slot)
    → Occupied s
    → one_if_occupied (compare_exchange state_occupied state_tombstone s).0 ≡ 0
unfolding compare_exchange
one_if_swapped s o = ground arith

uncounted :
    (a : Arena) (p : ℕ)
    → p < slot_count
    → Occupied (a.slots p)
    → IsExact a
    → IsExact (
        fetch_sub_used
          (slot_mut a p (compare_exchange state_occupied state_tombstone (a.slots p)).0))
unfolding fetch_sub_used used_count
uncounted a p lt o e =
    let x = (compare_exchange state_occupied state_tombstone (a.slots p)).0 in
    let same = slot_mut-header a p x in
    let was = one_if-Occupied (a.slots p) o in
    let is = one_if_swapped (a.slots p) o in
    omega
      (arith, e, ap (λ h. h.used_count) same, occupied_after a p x lt, occupied-le a.slots, was, is)

-- DEL lowers the counter where it frees a slot.
pub del_loop-IsExact :
    (key : Bytes) (hash start : ℕ) (a : Arena) (left i : ℕ)
    → IsExact a
    → IsExact (del_loop key hash start a left i).0
unfolding del_loop slot
del_loop-IsExact key hash start a zero i e = e
del_loop-IsExact key hash start a (suc left) i e =
    let p = probe start i in
    let s = a.slots p in
    let rest = del_loop-IsExact key hash start a left (suc i) e in
    let Exact : Arena × DelResult → Type 0 = λ run. IsExact run.0 in
    both Exact (s.state == state_empty) (λ _. e)
      λ _.
        both Exact (s.state == state_tombstone) (λ _. rest)
          λ _.
            both Exact (s.state == state_occupied)
              (λ o.
                both Exact (not (s.fingerprint == hash)) (λ _. rest)
                  λ _.
                    both Exact (not (bytes_eq (read_key s) key)) (λ _. rest)
                      λ _.
                        both Exact (compare_exchange state_occupied state_tombstone s).1
                          (λ _. uncounted a p (probe-lt start i) (occupied_of s o) e) (λ _. rest))
              (λ _. rest)

claim-Occupied :
    (s : Slot) (hash : ℕ) (key value : Bytes) (expiry : ℕ)
    → Occupied (claim_slot s hash key value expiry)
unfolding claim_slot
claim-Occupied s hash key value expiry = refl

-- A claim that is counted.
pub counted :
    (a : Arena) (t hash : ℕ) (key value : Bytes) (expiry : ℕ)
    → t < slot_count
    → ¬ Occupied (a.slots t)
    → IsExact a
    → IsExact (fetch_add_used (slot_mut a t (claim_slot (a.slots t) hash key value expiry)))
unfolding fetch_add_used used_count wrapping_add
counted a t hash key value expiry lt free e =
    let x = claim_slot (a.slots t) hash key value expiry in
    omega (
      arith,
      e,
      ap (λ h. h.used_count) (slot_mut-header a t x),
      occupied_after a t x lt,
      occupied-le a.slots,
      one_if_free (a.slots t) free,
      one_if-Occupied x (claim-Occupied (a.slots t) hash key value expiry),
    )

-- An update in place.
pub updated-IsExact :
    (a : Arena) (p expiry : ℕ) (value : Bytes)
    → p < slot_count
    → IsExact a
    → IsExact (slot_mut a p (record (write_value value (a.slots p)) { expires_at_ms = expiry }))
unfolding used_count write_value
updated-IsExact a p expiry value lt e =
    let x : Slot = record (write_value value (a.slots p)) { expires_at_ms = expiry } in
    let same : one_if_occupied x ≡ one_if_occupied (a.slots p) = refl in
    omega (arith, e, ap (λ h. h.used_count) (slot_mut-header a p x), occupied_after a p x lt, same)
