-- ===== src/Client/Simple.antt =====
-- The methods of src/client.rs that make one operation on the table keep their promise.
use memlane.Arena.{Arena}
use memlane.Client.Calls.{
  live_value, is_some, GetStep, get_key_too_long, get_answers, ExistsStep, exists_key_too_long,
  exists_answers, SetStep, set_key_too_long, set_value_too_long, set_full, set_updates,
  set_replaces, set_inserts, DelStep, del_key_too_long, del_answers,
}
use memlane.Client.{MemLaneError, Reply, got, was_set, was_deleted, get, set, del, exists}
use memlane.Hashmap
use memlane.Hashmap.Alone.{Separates, alone, Within-assign}
use memlane.Hashmap.Del.{del-Ends}
use memlane.Hashmap.Get.{get-Ends}
use memlane.Hashmap.Invariant.{Entry, AbstractMap}
use memlane.Hashmap.Run.{Holds, all-Occupied-IsFull}
use memlane.Hashmap.Set.{set-SetOutcome}
use memlane.Hashmap.SetEnds.{update, insert, replace, refuse}
use memlane.Hashmap.Spec.{read_entry, keep_entry, del_entry, is_dead}
use memlane.Hashmap.{Clock, is_found}
use memlane.Prelude.{
  ℕ, ◌<◌, ◌≤◌, ◌≡◌, refl, ◌⊎◌, inl, inr, Bool-cases, true, false, Option, none, some, Bytes, length,
  arith, ltb, Result,
}
use memlane.Slot.{max_key_len, max_val_len}
use memlane.Ttl.{ttl_to_expiry}

got-read_entry : (now : ℕ) (x : Option Entry) → got (read_entry now x) ≡ live_value now x
unfolding read_entry live_value
got-read_entry now none = refl
got-read_entry now (some e) = elim (Bool-cases (is_dead now e)) [
  | inl dead ↦ rw dead refl
  | inr live ↦ rw live refl
]

is_found-read_entry :
    (now : ℕ) (x : Option Entry) → is_found (read_entry now x) ≡ is_some (live_value now x)
unfolding read_entry live_value
is_found-read_entry now none = refl
is_found-read_entry now (some e) = elim (Bool-cases (is_dead now e)) [
  | inl dead ↦ rw dead refl
  | inr live ↦ rw live refl
]

was_deleted-del_entry : (x : Option Entry) → was_deleted (del_entry x) ≡ is_some x
unfolding del_entry
was_deleted-del_entry none = refl
was_deleted-del_entry (some e) = refl

fits_or_not :
    (n limit : ℕ) → ((limit < n) × (ltb limit n ≡ true)) ⊎ ((n ≤ limit) × (ltb limit n ≡ false))
fits_or_not n limit = elim (Bool-cases (ltb limit n)) [
  | inl long ↦ inl (ground arith, long)
  | inr short ↦ inr (ground arith, short)
]

-- A run of a method ended in an arena that models a map with `Step`.
pub record Keeps {A : Type 0} (Uses : Bytes → Type 0)
    (Step : Result MemLaneError A → AbstractMap → Type 0) (run : Reply A) : Type 0 where
  pub map : AbstractMap
  pub step : Step run.1 map
  pub holds : Holds Uses run.0 map

module _ {Uses : Bytes → Type 0} (apart : Separates Uses) {a : Arena} {m : AbstractMap}
    (h : Holds Uses a m) where
  -- On a valid arena that models a map with keys among some that the hash tells apart, GET of the
  -- client with such a key: a key over 128 bytes is refused and nothing changes; else the answer
  -- is the value of the key's entry that is alive at some reading of the clock, and a dead entry
  -- is gone. The arena stays such a one.
  pub get-GetStep :
      (clock : Clock) (key : Bytes) → Uses key → Keeps Uses (GetStep m clock key) (get clock a key)
  unfolding get
  get-GetStep clock key mine = elim (fits_or_not (length key) max_key_len) [
    | inl (long, test) ↦ rw test (record { map = m; step = get_key_too_long long; holds = h })
    | inr (short, test) ↦
        let (i, ends) =
          get-Ends clock key h.valid (alone apart h.valid h.models h.within mine) h.models in
        rw test (record {
          map = _;
          step = rw (ends.result, got-read_entry (clock i) (m key)) (get_answers short i);
          holds = record {
            valid = ends.valid;
            models = ends.models;
            within = Within-assign key (keep_entry (clock i) (m key)) mine h.within;
          };
        })
  ]

  -- On a valid arena that models a map with keys among some that the hash tells apart, EXISTS of
  -- the client with such a key: a key over 128 bytes is refused and nothing changes; else the
  -- answer is whether the key has an entry that is alive at some reading of the clock, and a dead
  -- entry is gone. The arena stays such a one.
  pub exists-ExistsStep :
      (clock : Clock) (key : Bytes)
      → Uses key
      → Keeps Uses (ExistsStep m clock key) (exists clock a key)
  unfolding exists Hashmap.exists
  exists-ExistsStep clock key mine = elim (fits_or_not (length key) max_key_len) [
    | inl (long, test) ↦ rw test (record { map = m; step = exists_key_too_long long; holds = h })
    | inr (short, test) ↦
        let (i, ends) =
          get-Ends clock key h.valid (alone apart h.valid h.models h.within mine) h.models in
        rw test (record {
          map = _;
          step = rw (ends.result, is_found-read_entry (clock i) (m key)) (exists_answers short i);
          holds = record {
            valid = ends.valid;
            models = ends.models;
            within = Within-assign key (keep_entry (clock i) (m key)) mine h.within;
          };
        })
  ]

  -- On a valid arena that models a map with keys among some that the hash tells apart, DEL of the
  -- client with such a key: a key over 128 bytes is refused and nothing changes; else the answer
  -- is whether the key had an entry, alive or not, and it has none after. The arena stays such a
  -- one.
  pub del-DelStep : (key : Bytes) → Uses key → Keeps Uses (DelStep m key) (del a key)
  unfolding del
  del-DelStep key mine = elim (fits_or_not (length key) max_key_len) [
    | inl (long, test) ↦ rw test (record { map = m; step = del_key_too_long long; holds = h })
    | inr (short, test) ↦
        let ends = del-Ends key h.valid h.models in
        rw test (record {
          map = _;
          step = rw (ends.result, was_deleted-del_entry (m key)) (del_answers short);
          holds = record {
            valid = ends.valid;
            models = ends.models;
            within = Within-assign key none mine h.within;
          };
        })
  ]

  table_set :
      (clock : Clock) (key value : Bytes) (ttl_secs : ℕ)
      → Uses key
      → length key ≤ max_key_len
      → length value ≤ max_val_len
      → Keeps Uses
          (SetStep m clock key value ttl_secs)
          (let (b, r) = Hashmap.set clock a key value ttl_secs in (b, was_set r))
  table_set clock key value ttl_secs mine short fits =
      let lone = alone apart h.valid h.models h.within mine in
      let within' =
        Within-assign key (some (value, ttl_to_expiry (clock 0) ttl_secs)) mine h.within in
      elim (set-SetOutcome clock key value ttl_secs short fits h.valid lone h.models) [
        | update i e has live ends ↦ record {
          map = _;
          step = rw ends.result (set_updates short fits i has live);
          holds = record { valid = ends.valid; models = ends.models; within = within' };
        }
        | insert no_entry ends ↦ record {
          map = _;
          step = rw ends.result (set_inserts short fits no_entry);
          holds = record { valid = ends.valid; models = ends.models; within = within' };
        }
        | replace i e has dead ends ↦ record {
          map = _;
          step = rw ends.result (set_replaces short fits i has dead);
          holds = record { valid = ends.valid; models = ends.models; within = within' };
        }
        | refuse no_entry all unchanged ↦ record {
          map = m;
          step =
              rw unchanged
                (set_full short fits no_entry (all-Occupied-IsFull h.valid h.models all));
          holds = rw unchanged h;
        }
      ]

  -- On a valid arena that models a map with keys among some that the hash tells apart, SET of the
  -- client with such a key: a key over 128 bytes, a value over 1024 bytes, or a new key when there
  -- are as many keys as slots is refused with its error, and nothing changes; else the key has the
  -- value with its expiry time, and the answer is whether it had no entry that was alive. The
  -- arena stays such a one.
  pub set-SetStep :
      (clock : Clock) (key value : Bytes) (ttl_secs : ℕ)
      → Uses key
      → Keeps Uses (SetStep m clock key value ttl_secs) (set clock a key value ttl_secs)
  unfolding set
  set-SetStep clock key value ttl_secs mine = elim (fits_or_not (length key) max_key_len) [
    | inl (long, test) ↦ rw test (record { map = m; step = set_key_too_long long; holds = h })
    | inr (short, test) ↦ elim (fits_or_not (length value) max_val_len) [
      | inl (long, test') ↦
          rw (test, test') (record { map = m; step = set_value_too_long short long; holds = h })
      | inr (fits, test') ↦ rw (test, test') (table_set clock key value ttl_secs mine short fits)
    ]
  ]
