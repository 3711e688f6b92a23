-- ===== src/CInterface/Codes.antt =====
-- What the code of `ml_get` in src/lib.rs tells its caller.
use memlane.Arena.{Arena}
use memlane.CInterface.{ml_get, copy_out}
use memlane.Client
use memlane.Client.Calls.{GetStep}
use memlane.Client.Simple.{Keeps, get-GetStep}
use memlane.Client.{MemLaneError, Reply}
use memlane.Hashmap.Alone.{Separates}
use memlane.Hashmap.Invariant.{AbstractMap}
use memlane.Hashmap.Run.{Holds}
use memlane.Hashmap.{Clock}
use memlane.Prelude.{
  ◌≡◌, refl, Option, none, some, ◌++◌, Bytes, length, take, drop, min, ok, err, ℤ, pos, negsuc,
}

-- What a call on a handle, with a key and a buffer, may leave in the buffer and return, and the map after it.
pub data MlGetStep (m : AbstractMap) (clock : Clock) (key out : Bytes)
    : Bytes → ℤ → AbstractMap → Type 0 where
  -- as much of the value as the buffer has room for, before what was there
  ml_found :
      {val : Bytes} {m' : AbstractMap}
      → GetStep m clock key (ok (some val)) m'
      → MlGetStep m clock key out
          (take (min (length val) (length out)) val ++ drop (min (length val) (length out)) out)
          (pos (min (length val) (length out)))
          m'
  ml_missing :
      {m' : AbstractMap}
      → GetStep m clock key (ok none) m'
      → MlGetStep m clock key out out (negsuc 0) m'
  ml_failed :
      {e : MemLaneError} {m' : AbstractMap}
      → GetStep m clock key (err e) m'
      → MlGetStep m clock key out out (negsuc 1) m'

module _ {Uses : Bytes → Type 0} where
  copy_out-MlGetStep :
      {m : AbstractMap} (clock : Clock) (key out : Bytes) (run : Reply (Option Bytes))
      → (k : Keeps Uses (GetStep m clock key) run)
      → MlGetStep m clock key out (copy_out run.1 out).0 (copy_out run.1 out).1 k.map
  copy_out-MlGetStep clock key out (b, ok (some val)) k = ml_found k.step
  copy_out-MlGetStep clock key out (b, ok none) k = ml_missing k.step
  copy_out-MlGetStep clock key out (b, err e) k = ml_failed k.step

  -- On a handle to a valid arena that models a map with keys among some that the hash tells apart,
  -- for such a key and buffers that are not null: `ml_get` returns the number of bytes that it
  -- copied of the value that GET finds, cut to the buffer; or -1 where GET finds none, or -2 where
  -- it fails, and the buffer is as before. The arena stays such a one.
  pub ml_get-MlGetStep :
      (apart : Separates Uses) (clock : Clock) (a : Arena) (m : AbstractMap) (key out : Bytes)
      → Uses key
      → Holds Uses a m
      → (b : Arena) × (out' : Bytes) × (code : ℤ) × (m' : AbstractMap) × (ml_get clock
            (some a)
            (some key)
            (some out)
          ≡ (some b, some out', code))
        × MlGetStep m clock key out out' code m'
        × Holds Uses b m'
  unfolding ml_get
  ml_get-MlGetStep apart clock a m key out mine h =
      let k = get-GetStep apart h clock key mine in
      let run = Client.get clock a key in
      (
        run.0,
        (copy_out run.1 out).0,
        (copy_out run.1 out).1,
        k.map,
        refl,
        copy_out-MlGetStep clock key out run k,
        k.holds,
      )
