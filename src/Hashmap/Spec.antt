-- ===== src/Hashmap/Spec.antt =====
-- The map that src/hashmap.rs promises: what its operations do, with no slots and no hash.
use memlane.Hashmap.Invariant.{Entry}
use memlane.Hashmap.{GetResult, found, expired, DelResult, deleted}
use memlane.Prelude.{ℕ, Bool, false, Option, none, some, leb, ◌==◌, if◌then◌else◌}

-- An entry is dead from its expiry time on, unless that is 0.
abbrev pub is_dead : ℕ → Entry → Bool
is_dead now e = if e.1 == 0 then false else leb e.1 now

-- What GET answers about an entry, and what is left of it.
unfoldable pub read_entry : ℕ → Option Entry → GetResult
read_entry now none = GetResult.not_found
read_entry now (some e) = if is_dead now e then expired else found e.0

unfoldable pub keep_entry : ℕ → Option Entry → Option Entry
keep_entry now none = none
keep_entry now (some e) = if is_dead now e then none else some e

-- What DEL answers.
unfoldable pub del_entry : Option Entry → DelResult
del_entry none = DelResult.not_found
del_entry (some e) = deleted
