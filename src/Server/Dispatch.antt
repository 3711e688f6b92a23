-- ===== src/Server/Dispatch.antt =====
-- src/server/mod.rs: which calls of the client the dispatcher makes of a command, in any spelling.
use memlane.Arena.{Arena}
use memlane.Client
use memlane.Client.{Clocks}
use memlane.Prelude.{
  ℕ, ◌+◌, ◌/◌, ◌≤◌, ◌≡◌, refl, ap, ◌∙◌, Bytes, codes, [], ◌∷◌, bytes_eq, ok, arith,
}
use memlane.Resp.Command.{
  TextOps, upper_byte, ok_reply, extract_command, extract_args, extract_name, with_args,
}
use memlane.Resp.{RespValue, bulk_string, array, no_items, item}
use memlane.Server.{dispatch_command, run_command, run_set, set_options, seconds_arg, reply}
use memlane.Text.Decimal.{parse_u64-to_string, to_string-IsAscii}
use memlane.Text.Utf8.{IsAscii, from_utf8_of_ascii}
use memlane.Text.{to_string, max_u64}
use memlane.Word.{wrapping_add}
use mathlib.Core.List.{map}

-- A text in lower, upper or mixed case.
pub record Spells (word s : Bytes) : Type 0 where
  pub ascii : IsAscii s
  pub upper : map upper_byte s ≡ word

-- `SET key val opt arg`
abbrev pub set_request : Bytes → Bytes → Bytes → Bytes → Bytes → RespValue
set_request name key val opt arg = array (
    item (bulk_string name) (
      item (bulk_string key)
        (item (bulk_string val) (item (bulk_string opt) (item (bulk_string arg) no_items)))))

module _ (text : TextOps) where
  upper_lossy : {word s : Bytes} → Spells word s → text.to_uppercase (text.from_utf8_lossy s) ≡ word
  upper_lossy {word} {s} h =
      ap text.to_uppercase (text.lossy_ascii s h.ascii) ∙ text.upper_ascii s h.ascii ∙ h.upper

  seconds_arg-to_string : (n : ℕ) → n ≤ max_u64 → seconds_arg text (to_string n) ≡ n
  unfolding seconds_arg
  seconds_arg-to_string n fits =
      rw (text.lossy_ascii (to_string n) (to_string-IsAscii n), parse_u64-to_string n fits) refl

  extract_name-Spells :
      {word s : Bytes} → Spells word s → extract_name text (bulk_string s) ≡ ok word
  unfolding extract_name
  extract_name-Spells {word} {s} h =
      rw (from_utf8_of_ascii s h.ascii, extract_name) (ap ok (text.upper_ascii s h.ascii ∙ h.upper))

  set_options-ex :
      {opt : Bytes} (n : ℕ)
      → Spells (codes "EX") opt
      → n ≤ max_u64
      → set_options text 0 (opt ∷ to_string n ∷ []) ≡ n
  unfolding set_options bytes_eq
  set_options-ex n ex fits = rw (upper_lossy ex, seconds_arg-to_string n fits) refl

  set_options-px :
      {opt : Bytes} (n : ℕ)
      → Spells (codes "PX") opt
      → n + 999 ≤ max_u64
      → set_options text 0 (opt ∷ to_string n ∷ []) ≡ (n + 999) / 1000
  unfolding set_options bytes_eq wrapping_add
  set_options-px n px fits =
      rw (upper_lossy px, seconds_arg-to_string n (omega arith)) (omega arith)

  dispatch_set :
      {name : Bytes} (clocks : Clocks) (a : Arena) (key val opt arg : Bytes)
      → Spells (codes "SET") name
      → dispatch_command text clocks a (set_request name key val opt arg)
        ≡ reply
            (Client.set (clocks 0) a key val (set_options text 0 (opt ∷ arg ∷ [])))
            (λ _. ok_reply)
  unfolding dispatch_command extract_command extract_args with_args run_command run_set bytes_eq
  dispatch_set clocks a key val opt arg named =
      rw (extract_name-Spells named, dispatch_command, extract_command) refl

  -- The options of SET, for a name of the command and of the option in any case: with `EX` and the print of a
  -- number that fits 64 bits, the dispatcher calls the client's `set` with that number of seconds, and replies OK or with
  -- the client's error; with `PX` and one that fits with 999 added, with the seconds rounded up.
  pub dispatch_command-set_options :
      {name ex px : Bytes} (clocks : Clocks) (a : Arena) (key val : Bytes) (n m : ℕ)
      → Spells (codes "SET") name
      → Spells (codes "EX") ex
      → Spells (codes "PX") px
      → n ≤ max_u64
      → m + 999 ≤ max_u64
      → (dispatch_command text clocks a (set_request name key val ex (to_string n))
          ≡ reply (Client.set (clocks 0) a key val n) (λ _. ok_reply))
        × (dispatch_command text clocks a (set_request name key val px (to_string m))
            ≡ reply (Client.set (clocks 0) a key val ((m + 999) / 1000)) (λ _. ok_reply))
  dispatch_command-set_options clocks a key val n m named ex px fits fits' = (
    dispatch_set clocks a key val _ (to_string n) named
        ∙ ap (λ t. reply (Client.set (clocks 0) a key val t) (λ _. ok_reply))
            (set_options-ex n ex fits),
    dispatch_set clocks a key val _ (to_string m) named
        ∙ ap (λ t. reply (Client.set (clocks 0) a key val t) (λ _. ok_reply))
            (set_options-px m px fits'),
  )
