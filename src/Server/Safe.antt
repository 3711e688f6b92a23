-- ===== src/Server/Safe.antt =====
-- The dispatcher of src/server/mod.rs and the loop of a connection keep an arena valid, whatever the
-- bytes that they are sent.
use memlane.Arena.{Arena}
use memlane.Client
use memlane.Client.Safe.{
  client_get-IsValid, client_set-IsValid, client_del-IsValid, client_exists-IsValid, flush-IsValid,
  mget-IsValid, mset-IsValid, incr-IsValid, decr-IsValid,
}
use memlane.Client.{Clocks, MemLaneError, Reply, later}
use memlane.Hashmap.Invariant.{IsValid}
use memlane.Hashmap.SafeRead.{both, Keeps}
use memlane.Prelude.{
  ℕ, ◌≡◌, refl, not, Option, none, some, List, [], ◌∷◌, Bytes, length, Result, ok, err, ◌==◌, ◌%◌,
}
use memlane.Resp.Command.{TextOps, Command, extract_command}
use memlane.Resp.{RespValue}
use memlane.Server.Branches.{run_command_branches}
use memlane.Server.{
  reply, count_true, del_keys, exists_keys, run_get, run_set, run_del, run_exists, run_mget,
  run_mset, run_incr, run_decr, run_ttl, run_flush, run_info, checked, run_command,
  dispatch_command, pairs_of, set_options,
}

-- A command that was called with the wrong number of arguments changes nothing.
abbrev KeepsIf : Option (Arena × RespValue) → Type 0
KeepsIf none = Unit
KeepsIf (some run) = Keeps run

reply-IsValid : {A : Type 0} (run : Reply A) (f : A → RespValue) → Keeps run → Keeps (reply run f)
reply-IsValid (a, ok x) f v = v
reply-IsValid (a, err e) f v = v

del_keys-IsValid : (keys : List Bytes) (a : Arena) (n : ℕ) → IsValid a → Keeps (del_keys a keys n)
unfolding del_keys
del_keys-IsValid [] a n v = v
del_keys-IsValid (key ∷ keys) a n v =
    del_keys-IsValid keys (Client.del a key).0 (count_true (Client.del a key).1 n)
      (client_del-IsValid a key v)

exists_keys-IsValid :
    (keys : List Bytes) (clocks : Clocks) (a : Arena) (n : ℕ)
    → IsValid a
    → Keeps (exists_keys clocks a keys n)
unfolding exists_keys
exists_keys-IsValid [] clocks a n v = v
exists_keys-IsValid (key ∷ keys) clocks a n v =
    exists_keys-IsValid keys (later clocks) (Client.exists (clocks 0) a key).0
      (count_true (Client.exists (clocks 0) a key).1 n) (client_exists-IsValid (clocks 0) a key v)

module _ (clocks : Clocks) (a : Arena) (v : IsValid a) where
  run_get-IsValid : (args : List Bytes) → KeepsIf (run_get clocks a args)
  unfolding run_get
  run_get-IsValid [] = tt
  run_get-IsValid (key ∷ []) =
      reply-IsValid (Client.get (clocks 0) a key) _ (client_get-IsValid (clocks 0) a key v)
  run_get-IsValid (key ∷ second ∷ args) = tt

  run_incr-IsValid : (args : List Bytes) → KeepsIf (run_incr clocks a args)
  unfolding run_incr
  run_incr-IsValid [] = tt
  run_incr-IsValid (key ∷ []) =
      reply-IsValid (Client.incr clocks a key) _ (incr-IsValid clocks a key v)
  run_incr-IsValid (key ∷ second ∷ args) = tt

  run_decr-IsValid : (args : List Bytes) → KeepsIf (run_decr clocks a args)
  unfolding run_decr
  run_decr-IsValid [] = tt
  run_decr-IsValid (key ∷ []) =
      reply-IsValid (Client.decr clocks a key) _ (decr-IsValid clocks a key v)
  run_decr-IsValid (key ∷ second ∷ args) = tt

  run_del-IsValid : (args : List Bytes) → KeepsIf (run_del a args)
  unfolding run_del
  run_del-IsValid [] = tt
  run_del-IsValid (key ∷ keys) = del_keys-IsValid (key ∷ keys) a 0 v

  run_exists-IsValid : (args : List Bytes) → KeepsIf (run_exists clocks a args)
  unfolding run_exists
  run_exists-IsValid [] = tt
  run_exists-IsValid (key ∷ keys) = exists_keys-IsValid (key ∷ keys) clocks a 0 v

  run_mget-IsValid : (args : List Bytes) → KeepsIf (run_mget clocks a args)
  unfolding run_mget
  run_mget-IsValid [] = tt
  run_mget-IsValid (key ∷ keys) =
      reply-IsValid (Client.mget clocks a (key ∷ keys)) _ (mget-IsValid (key ∷ keys) clocks a v)

  run_mset-IsValid : (args : List Bytes) → KeepsIf (run_mset clocks a args)
  unfolding run_mset
  run_mset-IsValid args =
      both KeepsIf (length args == 0) (λ _. tt)
        λ _.
          both KeepsIf (not (length args % 2 == 0)) (λ _. tt)
            λ _.
              reply-IsValid (Client.mset clocks a (pairs_of args) 0) _
                (mset-IsValid clocks a (pairs_of args) 0 v)

  run_ttl-IsValid : (args : List Bytes) → KeepsIf (run_ttl a args)
  unfolding run_ttl
  run_ttl-IsValid [] = tt
  run_ttl-IsValid (key ∷ []) = v
  run_ttl-IsValid (key ∷ second ∷ args) = tt

  run_flush-IsValid : Keeps (run_flush a)
  unfolding run_flush
  run_flush-IsValid = reply-IsValid (Client.flush a) _ (flush-IsValid a v)

  module _ (text : TextOps) where
    run_set-IsValid : (args : List Bytes) → KeepsIf (run_set text clocks a args)
    unfolding run_set
    run_set-IsValid [] = tt
    run_set-IsValid (key ∷ []) = tt
    run_set-IsValid (key ∷ val ∷ options) =
        reply-IsValid (Client.set (clocks 0) a key val (set_options text 0 options)) _
          (client_set-IsValid (clocks 0) a key val (set_options text 0 options) v)

    checked-IsValid :
        (name : Bytes) (run : Option (Arena × RespValue))
        → KeepsIf run
        → Keeps (checked text a name run)
    checked-IsValid name none h = v
    checked-IsValid name (some run) h = h

    run_command-IsValid :
        (name : Bytes) (args : List Bytes) → Keeps (run_command text clocks a name args)
    unfolding run_info
    run_command-IsValid name args =
        run_command_branches text clocks a name args (λ _ run. Keeps run)
          (record {
            on_ping = λ _. v;
            on_get = λ _. checked-IsValid _ (run_get clocks a args) (run_get-IsValid args);
            on_set = λ _. checked-IsValid _ (run_set text clocks a args) (run_set-IsValid args);
            on_del = λ _. checked-IsValid _ (run_del a args) (run_del-IsValid args);
            on_exists = λ _. checked-IsValid _ (run_exists clocks a args) (run_exists-IsValid args);
            on_mget = λ _. checked-IsValid _ (run_mget clocks a args) (run_mget-IsValid args);
            on_mset = λ _. checked-IsValid _ (run_mset clocks a args) (run_mset-IsValid args);
            on_incr = λ _. checked-IsValid _ (run_incr clocks a args) (run_incr-IsValid args);
            on_decr = λ _. checked-IsValid _ (run_decr clocks a args) (run_decr-IsValid args);
            on_ttl = λ _. checked-IsValid _ (run_ttl a args) (run_ttl-IsValid args);
            on_flush = λ _. run_flush-IsValid;
            on_info = λ _. v;
            on_command = λ _. v;
            on_unknown = λ _. v;
          })

    dispatch_cases :
        (val : RespValue) (cmd : Result Bytes Command)
        → extract_command text val ≡ cmd
        → Keeps (dispatch_command text clocks a val)
    unfolding dispatch_command
    dispatch_cases val (ok cmd) e = rw (e, dispatch_command) (run_command-IsValid cmd.name cmd.args)
    dispatch_cases val (err m) e = rw (e, dispatch_command) v

    -- Whatever value a client sends as a command, its dispatch keeps a valid arena valid.
    pub dispatch_command-IsValid :
        (val : RespValue) → IsValid (dispatch_command text clocks a val).0
    dispatch_command-IsValid val = dispatch_cases val (extract_command text val) refl
