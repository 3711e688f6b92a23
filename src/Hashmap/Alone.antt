-- ===== src/Hashmap/Alone.antt =====
-- When no key of the abstract map collides with a key, no slot of src/hashmap.rs does.
use memlane.Arena.{Arena}
use memlane.Hashmap.Invariant.{IsValid, NoCollision, Entry, AbstractMap, assign, Models}
use memlane.Prelude.{
  ◌≡◌, sym, ◌∙◌, inl, inr, Option, some, Bytes, bytes_eq, bytes_eq→eq, Bool-cases,
}
use memlane.Sip.{siphash}

-- The keys of the map are among `Uses`.
abbrev pub Within : (Bytes → Type 0) → AbstractMap → Type 0
Within Uses m = (q : Bytes) (e : Entry) → m q ≡ some e → Uses q

-- `siphash` tells the keys of `Uses` apart.
abbrev pub Separates : (Bytes → Type 0) → Type 0
Separates Uses = (q r : Bytes) → Uses q → Uses r → siphash q ≡ siphash r → q ≡ r

module _ {Uses : Bytes → Type 0} {a : Arena} {m : AbstractMap} where
  pub alone :
      {key : Bytes}
      → Separates Uses
      → IsValid a
      → Models a m
      → Within Uses m
      → Uses key
      → NoCollision a key
  alone {key} apart v h within mine p hp o f =
      let s = a.slots p in
      apart _ key (within _ _ (h.sound p hp o)) mine (sym ((v.filled p hp o).hashed) ∙ f)

pub Within-assign :
    {Uses : Bytes → Type 0} {m : AbstractMap} (key : Bytes) (x : Option Entry)
    → Uses key
    → Within Uses m
    → Within Uses (assign m key x)
Within-assign {Uses} {m} key x mine within q e has = elim (Bool-cases (bytes_eq q key)) [
  | inl same ↦ rw (bytes_eq→eq q key same) mine
  | inr other ↦ within q e (rw other at has)
]
