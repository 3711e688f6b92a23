-- ===== src/Client/Batch.antt =====
-- The methods of src/client.rs that make several operations: `incr`, `decr`, `mget` and `mset`.
use memlane.Arena.{Arena}
use memlane.Client.Calls.{
  GetStep, SetStep, CountStep, count_read_fails, count_write_fails, counted, MgetStep, mget_done,
  mget_fails, mget_fails_later, mget_next, MsetStep, mset_done, mset_fails, mset_next,
}
use memlane.Client.Number.{current-Counts}
use memlane.Client.Simple.{Keeps, get-GetStep, set-SetStep}
use memlane.Client.{
  Clocks, Reply, later, and_then, get, set, current, incr, decr, mget, mset_loop, mset,
}
use memlane.Hashmap.Alone.{Separates}
use memlane.Hashmap.Invariant.{AbstractMap}
use memlane.Hashmap.Run.{Holds}
use memlane.Prelude.{ℕ, ◌%◌, ◌^◌, ◌+◌, ◌-◌, Bool, Option, List, [], ◌∷◌, Bytes, ok, err}
use memlane.Text.{to_string}
use memlane.Word.{wrapping_add}

module _ {Uses : Bytes → Type 0} (apart : Separates Uses) where
  module _ (count : ℕ → ℕ) (clocks : Clocks) (key : Bytes) (mine : Uses key) where
    -- What `incr` and `decr` do with the number that they read.
    abbrev write_back : Option Bytes → Arena → Reply ℕ
    write_back v a' =
        and_then (set (clocks 1) a' key (to_string (count (current v))) 0)
          λ _ b. (b, ok (count (current v)))

    write_back-CountStep :
        {m m' : AbstractMap} (v : Option Bytes) (run : Reply Bool)
        → GetStep m (clocks 0) key (ok v) m'
        → Keeps Uses (SetStep m' (clocks 1) key (to_string (count (current v))) 0) run
        → Keeps Uses
            (CountStep count clocks key m)
            (and_then run λ _ b. (b, ok (count (current v))))
    write_back-CountStep v (b, ok new) read k = record {
      map = k.map;
      step = counted read (current-Counts v) k.step;
      holds = k.holds;
    }
    write_back-CountStep v (b, err e) read k = record {
      map = k.map;
      step = count_write_fails read (current-Counts v) k.step;
      holds = k.holds;
    }

    and_then-CountStep :
        {m : AbstractMap} (run : Reply (Option Bytes))
        → Keeps Uses (GetStep m (clocks 0) key) run
        → Keeps Uses (CountStep count clocks key m) (and_then run write_back)
    and_then-CountStep (b, ok v) k =
        write_back-CountStep v _ k.step
          (set-SetStep apart k.holds (clocks 1) key (to_string (count (current v))) 0 mine)
    and_then-CountStep (b, err e) k = record {
      map = k.map;
      step = count_read_fails k.step;
      holds = k.holds;
    }

  -- On a valid arena that models a map with keys among some that the hash tells apart, INCR of such a key reads its
  -- value and writes back, with no expiry, the print of a number: one more than what it read, wrapped to 64 bits,
  -- where a value that is one or more digits, perhaps behind a plus sign, and fits 64 bits reads as the number they
  -- spell, and a missing or dead one and any other text as 0. It answers the number it wrote; it fails as its GET
  -- or its SET does. The arena stays such a one.
  pub incr-CountStep :
      {a : Arena} {m : AbstractMap} (clocks : Clocks) (key : Bytes)
      → Uses key
      → Holds Uses a m
      → Keeps Uses (CountStep (λ n. (n + 1) % 2 ^ 64) clocks key m) (incr clocks a key)
  unfolding incr wrapping_add
  incr-CountStep {a} {m} clocks key mine h =
      and_then-CountStep (λ n. (n + 1) % 2 ^ 64) clocks key mine (get (clocks 0) a key)
        (get-GetStep apart h (clocks 0) key mine)

  -- On a valid arena that models a map with keys among some that the hash tells apart, DECR of
  -- such a key writes back, with no expiry, the number it read less one, or 0 where it read 0 or
  -- no number that is alive, and answers what it wrote; it fails as its GET or its SET does. The
  -- arena stays such a one.
  pub decr-CountStep :
      {a : Arena} {m : AbstractMap} (clocks : Clocks) (key : Bytes)
      → Uses key
      → Holds Uses a m
      → Keeps Uses (CountStep (λ n. n - 1) clocks key m) (decr clocks a key)
  unfolding decr
  decr-CountStep {a} {m} clocks key mine h =
      and_then-CountStep (λ n. n - 1) clocks key mine (get (clocks 0) a key)
        (get-GetStep apart h (clocks 0) key mine)

  -- The keys of a list are all in `Uses`.
  abbrev pub AllUsed : List Bytes → Type 0
  AllUsed [] = Unit {0}
  AllUsed (key ∷ keys) = Uses key × AllUsed keys

  mget_rest :
      {clocks : Clocks} {key : Bytes} {keys : List Bytes} {m m' : AbstractMap} {v : Option Bytes}
      (run : Reply (List (Option Bytes)))
      → GetStep m (clocks 0) key (ok v) m'
      → Keeps Uses (MgetStep (later clocks) keys m') run
      → Keeps Uses (MgetStep clocks (key ∷ keys) m) (and_then run λ vs b. (b, ok (v ∷ vs)))
  mget_rest (b, ok vs) read k = record {
    map = k.map;
    step = mget_next read k.step;
    holds = k.holds;
  }
  mget_rest (b, err e) read k = record {
    map = k.map;
    step = mget_fails_later read k.step;
    holds = k.holds;
  }

  mget_first :
      {m : AbstractMap} (clocks : Clocks) (key : Bytes) (keys : List Bytes)
      (run : Reply (Option Bytes))
      → ((b : Arena) (m' : AbstractMap)
          → Holds Uses b m'
          → Keeps Uses (MgetStep (later clocks) keys m') (mget (later clocks) b keys))
      → Keeps Uses (GetStep m (clocks 0) key) run
      → Keeps Uses
          (MgetStep clocks (key ∷ keys) m)
          (and_then run λ v a'. and_then (mget (later clocks) a' keys) λ vs b. (b, ok (v ∷ vs)))
  mget_first clocks key keys (b, ok v) rest k = mget_rest _ k.step (rest b k.map k.holds)
  mget_first clocks key keys (b, err e) rest k = record {
    map = k.map;
    step = mget_fails k.step;
    holds = k.holds;
  }

  -- On a valid arena that models a map with keys among some that the hash tells apart, MGET of
  -- such keys is the GETs of them in their order, up to the first that fails: its answer is the
  -- list of theirs, or that error. The arena stays such a one.
  pub mget-MgetStep :
      (keys : List Bytes) (clocks : Clocks) (a : Arena) (m : AbstractMap)
      → AllUsed keys
      → Holds Uses a m
      → Keeps Uses (MgetStep clocks keys m) (mget clocks a keys)
  unfolding mget
  mget-MgetStep [] clocks a m _ h = record { map = m; step = mget_done; holds = h }
  mget-MgetStep (key ∷ keys) clocks a m (mine, others) h =
      mget_first clocks key keys (get (clocks 0) a key)
        (λ b m' h'. mget-MgetStep keys (later clocks) b m' others h')
        (get-GetStep apart h (clocks 0) key mine)

  -- The keys of a list of pairs are all in `Uses`.
  abbrev pub AllPairsUsed : List (Bytes × Bytes) → Type 0
  AllPairsUsed [] = Unit {0}
  AllPairsUsed ((key, val) ∷ pairs) = Uses key × AllPairsUsed pairs

  mset_first :
      {m : AbstractMap} (clocks : Clocks) (ttl_secs count : ℕ) (key val : Bytes)
      (pairs : List (Bytes × Bytes)) (run : Reply Bool)
      → ((b : Arena) (m' : AbstractMap)
          → Holds Uses b m'
          → Keeps Uses
              (MsetStep (later clocks) ttl_secs (count + 1) pairs m')
              (mset_loop (later clocks) ttl_secs (count + 1) b pairs))
      → Keeps Uses (SetStep m (clocks 0) key val ttl_secs) run
      → Keeps Uses
          (MsetStep clocks ttl_secs count ((key, val) ∷ pairs) m)
          (and_then run λ _ a'. mset_loop (later clocks) ttl_secs (count + 1) a' pairs)
  mset_first clocks ttl_secs count key val pairs (b, ok new) rest k =
      let r = rest b k.map k.holds in
      record { map = r.map; step = mset_next k.step r.step; holds = r.holds }
  mset_first clocks ttl_secs count key val pairs (b, err e) rest k = record {
    map = k.map;
    step = mset_fails k.step;
    holds = k.holds;
  }

  mset_loop-MsetStep :
      (pairs : List (Bytes × Bytes)) (ttl_secs : ℕ) (clocks : Clocks) (count : ℕ) (a : Arena)
      (m : AbstractMap)
      → AllPairsUsed pairs
      → Holds Uses a m
      → Keeps Uses
          (MsetStep clocks ttl_secs count pairs m)
          (mset_loop clocks ttl_secs count a pairs)
  unfolding mset_loop
  mset_loop-MsetStep [] ttl_secs clocks count a m _ h = record {
    map = m;
    step = mset_done;
    holds = h;
  }
  mset_loop-MsetStep ((key, val) ∷ pairs) ttl_secs clocks count a m (mine, others) h =
      mset_first clocks ttl_secs count key val pairs (set (clocks 0) a key val ttl_secs)
        (λ b m' h'. mset_loop-MsetStep pairs ttl_secs (later clocks) (count + 1) b m' others h')
        (set-SetStep apart h (clocks 0) key val ttl_secs mine)

  -- On a valid arena that models a map with keys among some that the hash tells apart, MSET of
  -- such keys is the SETs of its pairs in their order, up to the first that fails: its answer is
  -- their number, or that error, and what was written before stays. The arena stays such a one.
  pub mset-MsetStep :
      (clocks : Clocks) (a : Arena) (m : AbstractMap) (pairs : List (Bytes × Bytes)) (ttl_secs : ℕ)
      → AllPairsUsed pairs
      → Holds Uses a m
      → Keeps Uses (MsetStep clocks ttl_secs 0 pairs m) (mset clocks a pairs ttl_secs)
  unfolding mset
  mset-MsetStep clocks a m pairs ttl_secs mine h =
      mset_loop-MsetStep pairs ttl_secs clocks 0 a m mine h
