-- ===== src/Tests/Hosts.antt =====
-- Tests of SET store by store, of the counter, of handles and of refused commands.
use memlane.Arena.{Os, init_region, create_arena}
use memlane.CInterface.Handles.{
  Caller, creates, sets, closes, ml_close, calls_start, calls_step, IsSound, CallReach-IsSound,
}
use memlane.CInterface.{ml_create, ml_set}
use memlane.Client.{create_client}
use memlane.Hashmap.Count.Exact.{run_op-IsExact}
use memlane.Hashmap.Count.{IsExact, none_occupied}
use memlane.Hashmap.Invariant.{IsValid}
use memlane.Hashmap.Crash.Apart.{IsApart}
use memlane.Hashmap.Crash.Everywhere.{AllHold}
use memlane.Hashmap.Crash.Isolated.{set_trace-get}
use memlane.Hashmap.Spec.{read_entry}
use memlane.Hashmap.Crash.Valid.{set_trace-AllValid, set_trace-IsApart}
use memlane.Hashmap.Crash.{last_of, set_trace}
use memlane.Hashmap.Steps.{op_set, run_op}
use memlane.Hashmap.{get, set, used_count}
use memlane.Prelude.{
  ◌≡◌, refl, sym, inl, inr, ℕ, some, ok, codes, [], ◌∷◌, ◌==◌, arith, bytes_eq, true, update,
}
use memlane.Resp.Command.{extract_command, extract_args, extract_name, with_args, wrong_args}
use memlane.Resp.{RespValue, bulk_string, array, no_items, item}
use memlane.Server.Arity.{dispatch_command-wrong_args}
use memlane.Server.{dispatch_command}
use memlane.Tests.Methods.{ascii, each_noon}
use memlane.Tests.Samples.{
  blank, midnight, noon, mq, nt, one, one_entry, one-Ends, one_alone, siphash-differ,
}
use memlane.Text.{from_utf8, is_utf8, utf8_from, first_byte}

set_trace-AllValid_example :
    AllHold IsValid (set_trace midnight one nt (codes "8") 0)
    × (last_of one (set_trace midnight one nt (codes "8") 0)
        ≡ (set midnight one nt (codes "8") 0).0)
set_trace-AllValid_example =
    set_trace-AllValid midnight one nt (codes "8") 0 (omega arith) one-Ends.valid

set_trace-IsApart_example : AllHold (IsApart nt one) (set_trace midnight one nt (codes "8") 0)
set_trace-IsApart_example =
    set_trace-IsApart midnight one nt (codes "8") 0 (omega arith) one-Ends.valid

set_trace-get_example :
    AllHold
      (λ b. (i : ℕ) × ((get noon b mq).1 ≡ read_entry (noon i) (one_entry mq)))
      (set_trace midnight one nt (codes "8") 0)
set_trace-get_example =
    set_trace-get midnight one one_entry nt (codes "8") 0 noon mq (omega arith) one-Ends.valid
      one-Ends.models (one_alone nt (inr refl)) (one_alone mq (inl refl)) siphash-differ

blank-IsExact : IsExact blank
unfolding used_count
blank-IsExact = sym (none_occupied blank.slots (λ p lt. refl))

run_op-IsExact_example : IsExact (run_op blank (op_set noon mq (codes "7") 5)).0
run_op-IsExact_example =
    run_op-IsExact (op_set noon mq (codes "7") 5) blank (λ i o f. absurd (omega arith))
      (9, omega arith, refl) blank-IsExact

abbrev granted : Os
granted = record { shm_open = ok tt; ftruncate = true; mmap = some one; hex = λ _. [] }

abbrev host : Caller
host = record { region = some one; handles = λ h. h == 4 }

granted-created : ml_create granted ≡ some (init_region one)
unfolding ml_create create_client create_arena
granted-created = refl

abbrev recreated : Caller
recreated = record { region = some (init_region one); handles = update host.handles 5 true }

abbrev with_key : Caller
with_key = record recreated {
  region = (ml_set noon recreated.region (some mq) (some (codes "8")) 3).0;
}

-- Another process creates the region again, the first one sets a key, and the second closes.
CallReach-IsSound_example : IsSound (ml_close with_key (some 5))
CallReach-IsSound_example =
    CallReach-IsSound {m = host} (record { valid = one-Ends.valid; mapped = λ h. tt })
      (calls_step
        (calls_step
          (calls_step calls_start
            (creates granted 5 one (init_region one) refl refl (inl refl) granted-created))
          (sets 4 noon (some mq) (some (codes "8")) 3 refl))
        (closes 5 refl))

abbrev get_two : RespValue
get_two =
    array
      (item (bulk_string (codes "get")) (item (bulk_string mq) (item (bulk_string nt) no_items)))

get_two-ok : extract_command ascii get_two ≡ ok (record { name = codes "GET"; args = mq ∷ nt ∷ [] })
unfolding extract_command with_args extract_name extract_args from_utf8 is_utf8 utf8_from first_byte
get_two-ok = refl

dispatch_command-wrong_args_example :
    dispatch_command ascii each_noon one get_two ≡ (one, wrong_args ascii (codes "GET"))
unfolding bytes_eq
dispatch_command-wrong_args_example =
    dispatch_command-wrong_args ascii each_noon one get_two
      (record { name = codes "GET"; args = mq ∷ nt ∷ [] }) get_two-ok refl
