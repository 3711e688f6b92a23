-- ===== src/Server/Answers.antt =====
-- src/server/mod.rs: what it is to answer a command as it promises, and the loops of DEL and EXISTS.
use memlane.Arena.{Arena}
use memlane.Client
use memlane.Client.Batch.{AllUsed, AllPairsUsed}
use memlane.Client.Simple.{Keeps, del-DelStep, exists-ExistsStep}
use memlane.Client.{Clocks, MemLaneError, Reply, later}
use memlane.Hashmap.Alone.{Separates}
use memlane.Hashmap.Invariant.{AbstractMap}
use memlane.Hashmap.Run.{Holds}
use memlane.Prelude.{
  ℕ, ◌≡◌, Bool, true, false, Option, none, some, List, [], ◌∷◌, Bytes, length, Result, ok, err,
}
use memlane.Resp.Command.{TextOps}
use memlane.Resp.{RespValue}
use memlane.Server.Branches.{takes_args}
use memlane.Client.Calls.{DelStep, ExistsStep}
use memlane.Server.Calls.{
  Outcome, went_well, went_wrong, DelAll, del_done, del_counts, del_misses, del_passes, ExistsAll,
  exists_done, exists_counts, exists_misses, exists_passes, every_other, Call,
}
use memlane.Server.Replies.{err_reply-error_text}
use memlane.Server.{pairs_of, reply, count_true, del_keys, exists_keys}

module _ (text : TextOps) (clocks : Clocks) (m : AbstractMap) (Uses : Bytes → Type 0) where
  -- A command was answered as it promises, and the arena models the map that it promises.
  pub record Answers (name : Bytes) (args : List Bytes) (run : Arena × RespValue) : Type 0 where
    pub map : AbstractMap
    pub step : Call text clocks m name args run.1 map
    pub holds : Holds Uses run.0 map

  unfoldable pub AnswersIf : Bytes → List Bytes → Option (Arena × RespValue) → Type 0
  AnswersIf name args none = takes_args name (length args) ≡ false
  AnswersIf name args (some run) = Answers name args run

  pub reply-Answers :
      {A : Type 0} {Step : Result MemLaneError A → AbstractMap → Type 0}
      {Good : A → RespValue → Type 0} {name : Bytes} {args : List Bytes} (run : Reply A)
      (f : A → RespValue)
      → Keeps Uses Step run
      → ((x : A) → Good x (f x))
      → ((r : Result MemLaneError A) (out : RespValue) (m' : AbstractMap)
          → Step r m'
          → Outcome Good r out
          → Call text clocks m name args out m')
      → Answers name args (reply run f)
  reply-Answers (b, ok x) f k good call = record {
    map = k.map;
    step = call (ok x) (f x) k.map k.step (went_well (good x));
    holds = k.holds;
  }
  reply-Answers (b, err e) f k good call = record {
    map = k.map;
    step = rw (err_reply-error_text e) (call (err e) _ k.map k.step went_wrong);
    holds = k.holds;
  }

del_next :
    {m m' m'' : AbstractMap} {key : Bytes} {keys : List Bytes} {n k : ℕ}
    (r : Result MemLaneError Bool)
    → DelStep m key r m'
    → DelAll keys (count_true r n) m' k m''
    → DelAll (key ∷ keys) n m k m''
del_next (ok true) step rest = del_counts step rest
del_next (ok false) step rest = del_misses step rest
del_next (err e) step rest = del_passes step rest

exists_next :
    {clocks : Clocks} {m m' m'' : AbstractMap} {key : Bytes} {keys : List Bytes} {n k : ℕ}
    (r : Result MemLaneError Bool)
    → ExistsStep m (clocks 0) key r m'
    → ExistsAll (later clocks) keys (count_true r n) m' k m''
    → ExistsAll clocks (key ∷ keys) n m k m''
exists_next (ok true) step rest = exists_counts step rest
exists_next (ok false) step rest = exists_misses step rest
exists_next (err e) step rest = exists_passes step rest

module _ {Uses : Bytes → Type 0} (apart : Separates Uses) where
  pub pairs_of-AllPairsUsed :
      (args : List Bytes) → AllUsed apart (every_other args) → AllPairsUsed apart (pairs_of args)
  unfolding pairs_of
  pairs_of-AllPairsUsed [] used = tt
  pairs_of-AllPairsUsed (key ∷ []) used = tt
  pairs_of-AllPairsUsed (key ∷ val ∷ args) (mine, others) =
      (mine, pairs_of-AllPairsUsed args others)

  pub del_keys-DelAll :
      (keys : List Bytes) (a : Arena) (m : AbstractMap) (n : ℕ)
      → AllUsed apart keys
      → Holds Uses a m
      → (m' : AbstractMap) × DelAll keys n m (del_keys a keys n).1 m'
        × Holds Uses (del_keys a keys n).0 m'
  unfolding del_keys
  del_keys-DelAll [] a m n used h = (m, del_done, h)
  del_keys-DelAll (key ∷ keys) a m n (mine, others) h =
      let k = del-DelStep apart h key mine in
      let (m', rest, holds) =
        del_keys-DelAll keys (Client.del a key).0 k.map (count_true (Client.del a key).1 n) others
          k.holds in
      (m', del_next (Client.del a key).1 k.step rest, holds)

  pub exists_keys-ExistsAll :
      (keys : List Bytes) (clocks : Clocks) (a : Arena) (m : AbstractMap) (n : ℕ)
      → AllUsed apart keys
      → Holds Uses a m
      → (m' : AbstractMap) × ExistsAll clocks keys n m (exists_keys clocks a keys n).1 m'
        × Holds Uses (exists_keys clocks a keys n).0 m'
  unfolding exists_keys
  exists_keys-ExistsAll [] clocks a m n used h = (m, exists_done, h)
  exists_keys-ExistsAll (key ∷ keys) clocks a m n (mine, others) h =
      let k = exists-ExistsStep apart h (clocks 0) key mine in
      let (m', rest, holds) =
        exists_keys-ExistsAll keys (later clocks) (Client.exists (clocks 0) a key).0 k.map
          (count_true (Client.exists (clocks 0) a key).1 n) others k.holds in
      (m', exists_next (Client.exists (clocks 0) a key).1 k.step rest, holds)
