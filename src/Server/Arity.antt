-- ===== src/Server/Arity.antt =====
-- src/server/mod.rs: the commands that the dispatcher refuses for the number of their arguments.
use memlane.Arena.{Arena}
use memlane.Client.{Clocks}
use memlane.Prelude.{
  ◌%◌, ◌≡◌, refl, sym, Bool, false, ◌&&◌, ◌==◌, leb, List, [], ◌∷◌, Bytes, length, Option, none, ok,
  arith,
}
use memlane.Resp.Command.{TextOps, Command, extract_command, wrong_args}
use memlane.Resp.{RespValue}
use memlane.Server.Branches.{takes_args, run_command_branches}
use memlane.Server.{
  dispatch_command, run_command, checked, run_get, run_set, run_del, run_exists, run_mget, run_mset,
  run_incr, run_decr, run_ttl,
}

run_get-none :
    (clocks : Clocks) (a : Arena) (args : List Bytes)
    → (length args == 1) ≡ false
    → run_get clocks a args ≡ none
unfolding run_get
run_get-none clocks a [] h = refl
run_get-none clocks a (k ∷ []) h = absurd cc
run_get-none clocks a (k ∷ l ∷ args) h = refl

run_incr-none :
    (clocks : Clocks) (a : Arena) (args : List Bytes)
    → (length args == 1) ≡ false
    → run_incr clocks a args ≡ none
unfolding run_incr
run_incr-none clocks a [] h = refl
run_incr-none clocks a (k ∷ []) h = absurd cc
run_incr-none clocks a (k ∷ l ∷ args) h = refl

run_decr-none :
    (clocks : Clocks) (a : Arena) (args : List Bytes)
    → (length args == 1) ≡ false
    → run_decr clocks a args ≡ none
unfolding run_decr
run_decr-none clocks a [] h = refl
run_decr-none clocks a (k ∷ []) h = absurd cc
run_decr-none clocks a (k ∷ l ∷ args) h = refl

run_ttl-none : (a : Arena) (args : List Bytes) → (length args == 1) ≡ false → run_ttl a args ≡ none
unfolding run_ttl
run_ttl-none a [] h = refl
run_ttl-none a (k ∷ []) h = absurd cc
run_ttl-none a (k ∷ l ∷ args) h = refl

run_del-none : (a : Arena) (args : List Bytes) → leb 1 (length args) ≡ false → run_del a args ≡ none
unfolding run_del
run_del-none a [] h = refl
run_del-none a (k ∷ args) h = absurd (ground arith)

run_exists-none :
    (clocks : Clocks) (a : Arena) (args : List Bytes)
    → leb 1 (length args) ≡ false
    → run_exists clocks a args ≡ none
unfolding run_exists
run_exists-none clocks a [] h = refl
run_exists-none clocks a (k ∷ args) h = absurd (ground arith)

run_mget-none :
    (clocks : Clocks) (a : Arena) (args : List Bytes)
    → leb 1 (length args) ≡ false
    → run_mget clocks a args ≡ none
unfolding run_mget
run_mget-none clocks a [] h = refl
run_mget-none clocks a (k ∷ args) h = absurd (ground arith)

run_mset-none :
    (clocks : Clocks) (a : Arena) (args : List Bytes)
    → (leb 1 (length args) && length args % 2 == 0) ≡ false
    → run_mset clocks a args ≡ none
unfolding run_mset
run_mset-none clocks a args h = ground arith

run_set-none :
    (text : TextOps) (clocks : Clocks) (a : Arena) (args : List Bytes)
    → leb 2 (length args) ≡ false
    → run_set text clocks a args ≡ none
unfolding run_set
run_set-none text clocks a [] h = refl
run_set-none text clocks a (k ∷ []) h = refl
run_set-none text clocks a (k ∷ v ∷ args) h = absurd (ground arith)

module _ (text : TextOps) (clocks : Clocks) (a : Arena) (name : Bytes) where
  -- A test that says no comes with the reply to a wrong number of arguments, and an arena as before.
  abbrev Refuses : Bool → Arena × RespValue → Type 0
  Refuses wanted run = wanted ≡ false → run ≡ (a, wrong_args text name)

  refused :
      (word : Bytes) {run : Option (Arena × RespValue)}
      → name ≡ word
      → run ≡ none
      → checked text a word run ≡ (a, wrong_args text name)
  refused word e h = rw (h, sym e) refl

  run_command-Refuses :
      (args : List Bytes)
      → Refuses (takes_args name (length args)) (run_command text clocks a name args)
  run_command-Refuses args = run_command_branches text clocks a name args Refuses (record {
    on_ping = λ _ few. absurd cc;
    on_get = λ e few. refused _ e (run_get-none clocks a args few);
    on_set = λ e few. refused _ e (run_set-none text clocks a args few);
    on_del = λ e few. refused _ e (run_del-none a args few);
    on_exists = λ e few. refused _ e (run_exists-none clocks a args few);
    on_mget = λ e few. refused _ e (run_mget-none clocks a args few);
    on_mset = λ e few. refused _ e (run_mset-none clocks a args few);
    on_incr = λ e few. refused _ e (run_incr-none clocks a args few);
    on_decr = λ e few. refused _ e (run_decr-none clocks a args few);
    on_ttl = λ e few. refused _ e (run_ttl-none a args few);
    on_flush = λ _ few. absurd cc;
    on_info = λ _ few. absurd cc;
    on_command = λ _ few. absurd cc;
    on_unknown = λ _ few. absurd cc;
  })

-- Every command that comes with a number of arguments that it does not take is answered with the error that names it,
-- and changes nothing.
pub dispatch_command-wrong_args :
    (text : TextOps) (clocks : Clocks) (a : Arena) (v : RespValue) (cmd : Command)
    → extract_command text v ≡ ok cmd
    → takes_args cmd.name (length cmd.args) ≡ false
    → dispatch_command text clocks a v ≡ (a, wrong_args text cmd.name)
unfolding dispatch_command
dispatch_command-wrong_args text clocks a v cmd e few =
    rw (e, dispatch_command) (run_command-Refuses text clocks a cmd.name cmd.args few)
