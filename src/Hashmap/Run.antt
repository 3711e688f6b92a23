-- ===== src/Hashmap/Run.antt =====
-- The table of src/hashmap.rs implements the abstract map: over any sequence of operations on keys
-- that the hash tells apart.
use memlane.Arena.{Arena, slot_count}
use memlane.Hashmap.Alone.{Within, Separates, alone, Within-assign}
use memlane.Hashmap.Del.{del-Ends}
use memlane.Hashmap.Flush.{no_entries, flush_all-no_entries}
use memlane.Hashmap.Get.{get-Ends}
use memlane.Hashmap.Invariant.{Occupied, IsValid, AbstractMap, Models}
use memlane.Hashmap.Set.{set-SetOutcome}
use memlane.Hashmap.SetEnds.{update, insert, replace, refuse}
use memlane.Hashmap.Spec.{keep_entry}
use memlane.Hashmap.Steps.{
  Op, op_get, op_exists, op_set, op_del, op_flush, run_op, run, IsFull, Step, on_get, on_exists,
  on_update, on_insert, on_replace, on_full, on_del, on_flush, Steps, done, next,
}
use memlane.Hashmap.{Clock, exists}
use memlane.Prelude.{ℕ, ◌≤◌, ◌<◌, none, some, List, [], ◌∷◌, Bytes, length}
use memlane.Slot.{max_key_len, max_val_len, read_key}
use memlane.Ttl.{ttl_to_expiry}

-- The key of the operation is one of `Uses`, and what it writes fits a slot.
abbrev pub FitsOp : (Bytes → Type 0) → Op → Type 0
FitsOp Uses (op_get clock key) = Uses key
FitsOp Uses (op_exists clock key) = Uses key
FitsOp Uses (op_set clock key value ttl_secs) =
    Uses key × (length key ≤ max_key_len) × (length value ≤ max_val_len)
FitsOp Uses (op_del key) = Uses key
FitsOp Uses op_flush = Unit {0}

abbrev pub FitsOps : (Bytes → Type 0) → List Op → Type 0
FitsOps Uses [] = Unit {0}
FitsOps Uses (op ∷ ops) = FitsOp Uses op × FitsOps Uses ops

-- The arena is valid, and models a map with keys in `Uses`.
pub record Holds (Uses : Bytes → Type 0) (a : Arena) (m : AbstractMap) : Type 0 where
  pub valid : IsValid a
  pub models : Models a m
  pub within : Within Uses m

-- With every slot occupied, the map has a key for each.
pub all-Occupied-IsFull :
    {a : Arena} {m : AbstractMap}
    → IsValid a
    → Models a m
    → ((p : ℕ) → p < slot_count → Occupied (a.slots p))
    → IsFull m
all-Occupied-IsFull {a} {m} v h all = (
  λ p. read_key (a.slots p),
  λ p hp nothing. let has = h.sound p hp (all p hp) in absurd cc,
  λ p q hp hq same. v.unique p q hp hq (all p hp) (all q hq) same,
)

module _ {Uses : Bytes → Type 0} (apart : Separates Uses) {a : Arena} {m : AbstractMap}
    (h : Holds Uses a m) where
  abbrev Done : Op → Type 0
  Done op = (m' : AbstractMap) × Step m op (run_op a op).1 m' × Holds Uses (run_op a op).0 m'

  get_Done : (clock : Clock) (key : Bytes) → Uses key → Done (op_get clock key)
  unfolding run_op
  get_Done clock key mine =
      let (i, ends) =
        get-Ends clock key h.valid (alone apart h.valid h.models h.within mine) h.models in
      (
        _,
        rw ends.result (on_get i),
        record {
          valid = ends.valid;
          models = ends.models;
          within = Within-assign key (keep_entry (clock i) (m key)) mine h.within;
        },
      )

  exists_Done : (clock : Clock) (key : Bytes) → Uses key → Done (op_exists clock key)
  unfolding run_op exists
  exists_Done clock key mine =
      let (i, ends) =
        get-Ends clock key h.valid (alone apart h.valid h.models h.within mine) h.models in
      (
        _,
        rw ends.result (on_exists i),
        record {
          valid = ends.valid;
          models = ends.models;
          within = Within-assign key (keep_entry (clock i) (m key)) mine h.within;
        },
      )

  del_Done : (key : Bytes) → Uses key → Done (op_del key)
  unfolding run_op
  del_Done key mine =
      let ends = del-Ends key h.valid h.models in
      (
        _,
        rw ends.result on_del,
        record {
          valid = ends.valid;
          models = ends.models;
          within = Within-assign key none mine h.within;
        },
      )

  flush_Done : Done op_flush
  unfolding run_op
  flush_Done =
      let (v, models, zero_used) = flush_all-no_entries h.valid in
      (no_entries, on_flush, record { valid = v; models = models; within = λ q e has. absurd cc })

  set_Done :
      (clock : Clock) (key value : Bytes) (ttl_secs : ℕ)
      → Uses key
      → length key ≤ max_key_len
      → length value ≤ max_val_len
      → Done (op_set clock key value ttl_secs)
  unfolding run_op
  set_Done clock key value ttl_secs mine key_fits val_fits =
      let lone = alone apart h.valid h.models h.within mine in
      let within' =
        Within-assign key (some (value, ttl_to_expiry (clock 0) ttl_secs)) mine h.within in
      elim (set-SetOutcome clock key value ttl_secs key_fits val_fits h.valid lone h.models) [
        | update i e has live ends ↦ (
          _,
          rw ends.result (on_update i has live),
          record { valid = ends.valid; models = ends.models; within = within' },
        )
        | insert no_entry ends ↦ (
          _,
          rw ends.result (on_insert no_entry),
          record { valid = ends.valid; models = ends.models; within = within' },
        )
        | replace i e has dead ends ↦ (
          _,
          rw ends.result (on_replace i has dead),
          record { valid = ends.valid; models = ends.models; within = within' },
        )
        | refuse no_entry all unchanged ↦ (
          m,
          rw unchanged (on_full no_entry (all-Occupied-IsFull h.valid h.models all)),
          rw unchanged h,
        )
      ]

  run_op-Step : (op : Op) → FitsOp Uses op → Done op
  run_op-Step (op_get clock key) mine = get_Done clock key mine
  run_op-Step (op_exists clock key) mine = exists_Done clock key mine
  run_op-Step (op_set clock key value ttl_secs) (mine, key_fits, val_fits) =
      set_Done clock key value ttl_secs mine key_fits val_fits
  run_op-Step (op_del key) mine = del_Done key mine
  run_op-Step op_flush _ = flush_Done

-- On a valid arena that models a map with keys among some that the hash tells apart, over any
-- sequence of operations on such keys whose writes fit a slot: the table answers as the abstract
-- map may, from that map to one that the arena at the end models, and the arena stays valid.
pub run-Steps :
    {Uses : Bytes → Type 0} (apart : Separates Uses) (ops : List Op) (a : Arena) (m : AbstractMap)
    → FitsOps Uses ops
    → Holds Uses a m
    → (m' : AbstractMap) × Steps m ops (run a ops).1 m' × Holds Uses (run a ops).0 m'
unfolding run
run-Steps {Uses} apart [] a m _ h = (m, done, h)
run-Steps {Uses} apart (op ∷ ops) a m (fits, rest) h =
    let (m', step, h') = run_op-Step apart h op fits in
    let (m'', steps, h'') = run-Steps apart ops (run_op a op).0 m' rest h' in
    (m'', next step steps, h'')
