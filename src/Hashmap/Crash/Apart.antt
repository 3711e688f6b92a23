-- ===== src/Hashmap/Crash/Apart.antt =====
-- src/hashmap.rs: what a SET of one key leaves alone.
use memlane.Arena.{Arena, slot_mut}
use memlane.Hashmap.Invariant.{Occupied}
use memlane.Hashmap.Write.{by_slot}
use memlane.Hashmap.{fetch_add_used}
use memlane.Prelude.{ℕ, ◌≡◌, ◌≢◌, refl, sym, subst, Bytes}
use memlane.Sip.{siphash}
use memlane.Slot.{Slot, read_key}

-- From `a` to `b` nothing has changed but entries of `key`, and entries whose hash is that of `key`.
pub record IsApart (key : Bytes) (a b : Arena) : Type 0 where
  pub kept :
      (p : ℕ)
      → Occupied (a.slots p)
      → siphash (read_key (a.slots p)) ≢ siphash key
      → b.slots p ≡ a.slots p
  pub brought : (p : ℕ) → Occupied (b.slots p) → read_key (b.slots p) ≢ key → b.slots p ≡ a.slots p

pub IsApart_self : (key : Bytes) (a : Arena) → IsApart key a a
IsApart_self key a = record { kept = λ p o n. refl; brought = λ p o n. refl }

-- A write of an entry of the key, or of none, over an entry of its hash, or none.
pub slot_mut-IsApart :
    {key : Bytes} {a b : Arena} (t : ℕ) (x : Slot)
    → IsApart key a b
    → (Occupied x → read_key x ≡ key)
    → (Occupied (b.slots t) → siphash (read_key (b.slots t)) ≡ siphash key)
    → IsApart key a (slot_mut b t x)
slot_mut-IsApart {key} {a} {b} t x w mine was = record {
  kept =
      by_slot b t x
        (λ p y. Occupied (a.slots p) → siphash (read_key (a.slots p)) ≢ siphash key → y ≡ a.slots p)
        (λ o n.
          let same = w.kept t o n in
          absurd (
            n (
              subst (λ s. siphash (read_key s) ≡ siphash key) same
                (was (subst Occupied (sym same) o)))))
        (λ p _. w.kept p);
  brought =
      by_slot b t x (λ p y. Occupied y → read_key y ≢ key → y ≡ a.slots p)
        (λ o n. absurd (n (mine o))) (λ p _. w.brought p);
}

pub fetch_add_used-IsApart :
    {key : Bytes} {a b : Arena} → IsApart key a b → IsApart key a (fetch_add_used b)
unfolding fetch_add_used
fetch_add_used-IsApart w = record { kept = w.kept; brought = w.brought }
