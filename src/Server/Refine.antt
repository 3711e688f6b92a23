-- ===== src/Server/Refine.antt =====
-- The dispatcher of src/server/mod.rs keeps the promise of its commands.
pub mod Session
use memlane.Arena.{Arena}
use memlane.Client
use memlane.Client.Batch.{AllUsed, incr-CountStep, decr-CountStep, mget-MgetStep, mset-MsetStep}
use memlane.Client.Simple.{get-GetStep, set-SetStep}
use memlane.Client.{Clocks}
use memlane.Hashmap.Alone.{Separates}
use memlane.Hashmap.Flush.{no_entries, flush_all-no_entries}
use memlane.Hashmap.Invariant.{AbstractMap}
use memlane.Hashmap.Run.{Holds}
use memlane.Hashmap.SafeRead.{both}
use memlane.Prelude.{
  ℕ, suc, leb, ◌&&◌, ◌≡◌, refl, sym, subst, not, true, false, Option, none, some, List, [], ◌∷◌,
  Bytes, bytes_eq, codes, length, ◌==◌, ◌%◌, arith,
}
use memlane.Resp.Command.{TextOps, wrong_args}
use memlane.Resp.{RespValue}
use memlane.Server.Branches.{is_among, flush_names, run_command_branches}
use memlane.Server.Calls.{
  says_ok, shows_array, keys_of, Call, call_ping, call_echo, call_get, call_set, call_del,
  call_exists, call_mget, call_mset, call_incr, call_decr, call_ttl, call_flush, call_info,
  call_command, call_wrong_args, call_unknown,
}
use memlane.Server.Replies.{
  bulk_or_nil-Shows, bulks-ShowsAll, as_i64-ShowsSigned, pairs_of-Pairs, set_options-Options,
}
use memlane.Server.{
  run_ping, unknown_command, reply, run_get, run_set, run_del, run_exists, run_mget, run_mset,
  run_incr, run_decr, run_ttl, run_flush, run_info, checked, run_command, pairs_of, set_options,
}
use memlane.Server.Answers.{
  Answers, AnswersIf, reply-Answers, pairs_of-AllPairsUsed, del_keys-DelAll, exists_keys-ExistsAll,
}

two_or_more : (n : ℕ) → (suc (suc n) == 1) ≡ false
two_or_more n = ground arith

odd_args : (n : ℕ) → not (n % 2 == 0) ≡ true → (leb 1 n && n % 2 == 0) ≡ false
odd_args n odd = ground arith

even_tail : (n : ℕ) → not (suc (suc n) % 2 == 0) ≡ false → n % 2 ≡ 0
even_tail n even = ground arith

module _ {Uses : Bytes → Type 0} (apart : Separates Uses) where
  module _ (text : TextOps) (clocks : Clocks) {a : Arena} {m : AbstractMap}
      (h : Holds Uses a m) where
    run_get-Call :
        (args : List Bytes)
        → AllUsed apart (keys_of (codes "GET") args)
        → AnswersIf text clocks m Uses (codes "GET") args (run_get clocks a args)
    unfolding run_get bytes_eq AnswersIf
    run_get-Call [] used = refl
    run_get-Call (key ∷ []) used =
        reply-Answers text clocks m Uses (Client.get (clocks 0) a key) _
          (get-GetStep apart h (clocks 0) key used.0) bulk_or_nil-Shows
          (λ r out m' step reply. call_get step reply)
    run_get-Call (key ∷ second ∷ args) used = two_or_more (length args)

    run_incr-Call :
        (args : List Bytes)
        → AllUsed apart (keys_of (codes "INCR") args)
        → AnswersIf text clocks m Uses (codes "INCR") args (run_incr clocks a args)
    unfolding run_incr bytes_eq AnswersIf
    run_incr-Call [] used = refl
    run_incr-Call (key ∷ []) used =
        reply-Answers text clocks m Uses (Client.incr clocks a key) _
          (incr-CountStep apart clocks key used.0 h) as_i64-ShowsSigned
          (λ r out m' step reply. call_incr step reply)
    run_incr-Call (key ∷ second ∷ args) used = two_or_more (length args)

    run_decr-Call :
        (args : List Bytes)
        → AllUsed apart (keys_of (codes "DECR") args)
        → AnswersIf text clocks m Uses (codes "DECR") args (run_decr clocks a args)
    unfolding run_decr bytes_eq AnswersIf
    run_decr-Call [] used = refl
    run_decr-Call (key ∷ []) used =
        reply-Answers text clocks m Uses (Client.decr clocks a key) _
          (decr-CountStep apart clocks key used.0 h) as_i64-ShowsSigned
          (λ r out m' step reply. call_decr step reply)
    run_decr-Call (key ∷ second ∷ args) used = two_or_more (length args)

    run_set-Call :
        (args : List Bytes)
        → AllUsed apart (keys_of (codes "SET") args)
        → AnswersIf text clocks m Uses (codes "SET") args (run_set text clocks a args)
    unfolding run_set bytes_eq AnswersIf
    run_set-Call [] used = refl
    run_set-Call (key ∷ []) used = refl
    run_set-Call (key ∷ val ∷ options) used =
        reply-Answers text clocks m Uses
          (Client.set (clocks 0) a key val (set_options text 0 options)) _
          (set-SetStep apart h (clocks 0) key val (set_options text 0 options) used.0)
          (λ new. says_ok)
          (λ r out m' step reply. call_set (set_options-Options text 0 options) step reply)

    run_del-Call :
        (args : List Bytes)
        → AllUsed apart (keys_of (codes "DEL") args)
        → AnswersIf text clocks m Uses (codes "DEL") args (run_del a args)
    unfolding run_del bytes_eq AnswersIf
    run_del-Call [] used = refl
    run_del-Call (key ∷ keys) used =
        let (m', all, holds) = del_keys-DelAll apart (key ∷ keys) a m 0 used h in
        record { map = m'; step = call_del all; holds = holds }

    run_exists-Call :
        (args : List Bytes)
        → AllUsed apart (keys_of (codes "EXISTS") args)
        → AnswersIf text clocks m Uses (codes "EXISTS") args (run_exists clocks a args)
    unfolding run_exists bytes_eq AnswersIf
    run_exists-Call [] used = refl
    run_exists-Call (key ∷ keys) used =
        let (m', all, holds) = exists_keys-ExistsAll apart (key ∷ keys) clocks a m 0 used h in
        record { map = m'; step = call_exists all; holds = holds }

    run_mget-Call :
        (args : List Bytes)
        → AllUsed apart (keys_of (codes "MGET") args)
        → AnswersIf text clocks m Uses (codes "MGET") args (run_mget clocks a args)
    unfolding run_mget bytes_eq AnswersIf
    run_mget-Call [] used = refl
    run_mget-Call (key ∷ keys) used =
        reply-Answers text clocks m Uses (Client.mget clocks a (key ∷ keys)) _
          (mget-MgetStep apart (key ∷ keys) clocks a m used h)
          (λ vs. shows_array (bulks-ShowsAll vs)) (λ r out m' step reply. call_mget step reply)

    run_mset-Call :
        (args : List Bytes)
        → AllUsed apart (keys_of (codes "MSET") args)
        → AnswersIf text clocks m Uses (codes "MSET") args (run_mset clocks a args)
    unfolding run_mset bytes_eq AnswersIf pairs_of
    run_mset-Call [] used = refl
    run_mset-Call (key ∷ []) used = refl
    run_mset-Call (key ∷ val ∷ args) used =
        both (AnswersIf text clocks m Uses (codes "MSET") (key ∷ val ∷ args))
          (length (key ∷ val ∷ args) == 0) (λ e. absurd (ground arith))
          λ some_args.
            both (AnswersIf text clocks m Uses (codes "MSET") (key ∷ val ∷ args))
              (not (length (key ∷ val ∷ args) % 2 == 0))
              (λ odd. odd_args (length (key ∷ val ∷ args)) odd)
              λ even.
                reply-Answers text clocks m Uses
                  (Client.mset clocks a (pairs_of (key ∷ val ∷ args)) 0) _
                  (mset-MsetStep apart clocks a m (pairs_of (key ∷ val ∷ args)) 0
                    (pairs_of-AllPairsUsed apart (key ∷ val ∷ args) used) h)
                  (λ n. says_ok)
                  (λ r out m' step reply.
                    call_mset (pairs_of-Pairs args (even_tail (length args) even)) step reply)

    run_ttl-Call :
        (args : List Bytes) → AnswersIf text clocks m Uses (codes "TTL") args (run_ttl a args)
    unfolding run_ttl bytes_eq AnswersIf
    run_ttl-Call [] = refl
    run_ttl-Call (key ∷ []) = record { map = m; step = call_ttl; holds = h }
    run_ttl-Call (key ∷ second ∷ args) = two_or_more (length args)

    run_flush-Call :
        (name : Bytes) (args : List Bytes)
        → is_among flush_names name ≡ true
        → Answers text clocks m Uses name args (run_flush a)
    unfolding run_flush Client.flush
    run_flush-Call name args e =
        let (v, models, zero_used) = flush_all-no_entries h.valid in
        record {
          map = no_entries;
          step = call_flush e;
          holds = record { valid = v; models = models; within = λ q e has. absurd cc };
        }

    run_ping-Call : (args : List Bytes) → Call text clocks m (codes "PING") args (run_ping args) m
    unfolding run_ping
    run_ping-Call [] = call_ping
    run_ping-Call (message ∷ args) = call_echo

    checked-Answers :
        (name : Bytes) (args : List Bytes) (run : Option (Arena × RespValue))
        → AnswersIf text clocks m Uses name args run
        → Answers text clocks m Uses name args (checked text a name run)
    unfolding AnswersIf wrong_args
    checked-Answers name args none few = record { map = m; step = call_wrong_args few; holds = h }
    checked-Answers name args (some run) k = k

    module _ (name : Bytes) (args : List Bytes) (used : AllUsed apart (keys_of name args)) where
      -- A branch for a word, once the name is that word and the keys are its.
      named :
          (word : Bytes) {run : Arena × RespValue}
          → name ≡ word
          → (AllUsed apart (keys_of word args) → Answers text clocks m Uses word args run)
          → Answers text clocks m Uses name args run
      named word {run} e k =
          subst (λ w. Answers text clocks m Uses w args run) (sym e)
            (k (subst (λ w. AllUsed apart (keys_of w args)) e used))

      named_checked :
          (word : Bytes)
          → name ≡ word
          → (run : Option (Arena × RespValue))
          → (AllUsed apart (keys_of word args) → AnswersIf text clocks m Uses word args run)
          → Answers text clocks m Uses name args (checked text a word run)
      named_checked word e run k = named word e (λ mine. checked-Answers word args run (k mine))

      pub run_command-Answers :
          Answers text clocks m Uses name args (run_command text clocks a name args)
      unfolding run_info unknown_command
      run_command-Answers =
          run_command_branches text clocks a name args
            (λ _ run. Answers text clocks m Uses name args run)
            (record {
              on_ping =
                  λ e. named _ e (λ _. record { map = m; step = run_ping-Call args; holds = h });
              on_get = λ e. named_checked _ e (run_get clocks a args) (run_get-Call args);
              on_set = λ e. named_checked _ e (run_set text clocks a args) (run_set-Call args);
              on_del = λ e. named_checked _ e (run_del a args) (run_del-Call args);
              on_exists = λ e. named_checked _ e (run_exists clocks a args) (run_exists-Call args);
              on_mget = λ e. named_checked _ e (run_mget clocks a args) (run_mget-Call args);
              on_mset = λ e. named_checked _ e (run_mset clocks a args) (run_mset-Call args);
              on_incr = λ e. named_checked _ e (run_incr clocks a args) (run_incr-Call args);
              on_decr = λ e. named_checked _ e (run_decr clocks a args) (run_decr-Call args);
              on_ttl = λ e. named_checked _ e (run_ttl a args) (λ _. run_ttl-Call args);
              on_flush = run_flush-Call name args;
              on_info = λ e. named _ e (λ _. record { map = m; step = call_info _; holds = h });
              on_command = λ e. named _ e (λ _. record { map = m; step = call_command; holds = h });
              on_unknown = λ n. record { map = m; step = call_unknown n; holds = h };
            })
