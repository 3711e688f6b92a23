-- ===== src/Server/Calls.antt =====
-- What the commands of src/server/mod.rs promise, on the abstract map: each reply with the map after it. The
-- relations are written without the functions of the dispatcher.
use memlane.Client.Calls.{GetStep, ExistsStep, SetStep, DelStep, CountStep, MgetStep, MsetStep}
use memlane.Client.{
  Clocks, MemLaneError, arena_init, arena_full, key_too_long, value_too_long, later,
}
use memlane.Hashmap.Flush.{no_entries}
use memlane.Hashmap.Invariant.{AbstractMap}
use memlane.Prelude.{
  ℕ, suc, ◌+◌, ◌-◌, ◌/◌, ◌%◌, ◌^◌, ◌<◌, ◌≤◌, ◌≡◌, ◌≢◌, Bool, true, false, Option, none, some, List,
  [], ◌∷◌, ◌++◌, Bytes, bytes_eq, codes, length, if◌then◌else◌, Result, ok, err, pos, negsuc,
}
use memlane.Resp.Command.{TextOps, Command}
use memlane.Resp.{
  RespValue, RespValues, simple_string, error, integer, bulk_string, nil, array, no_items, item,
  encode,
}
use memlane.Server.Branches.{takes_args, is_among, command_names, flush_names}
use memlane.Text.Numeral.{ReadsAs}
use memlane.Text.{is_utf8, to_string}

-- What the error reply says of a call that failed.
abbrev pub complaint : MemLaneError → Bytes
complaint (arena_init e) = codes "ERR Arena initialisation failed: " ++ e
complaint (arena_full n) =
    codes "ERR Arena is full "
    ++ (0xe2 ∷ 0x80 ∷ 0x94 ∷ (codes " all " ++ (to_string n ++ codes " slots are occupied")))
complaint (key_too_long n) = codes "ERR Key too long: " ++ (to_string n ++ codes " bytes (max 128)")
complaint (value_too_long n) =
    codes "ERR Value too long: " ++ (to_string n ++ codes " bytes (max 1024)")

-- The reply to a call: that of its result, or its complaint.
pub data Outcome {A : Type 0} (Good : A → RespValue → Type 0)
    : Result MemLaneError A → RespValue → Type 0 where
  went_well : {x : A} {r : RespValue} → Good x r → Outcome Good (ok x) r
  went_wrong : {e : MemLaneError} → Outcome Good (err e) (error (complaint e))

-- A value, or none.
pub data Shows : Option Bytes → RespValue → Type 0 where
  shows_value : {v : Bytes} → Shows (some v) (bulk_string v)
  shows_nil : Shows none nil

pub data ShowsAll : List (Option Bytes) → RespValues → Type 0 where
  all_shown : ShowsAll [] no_items
  one_shown :
      {v : Option Bytes} {vs : List (Option Bytes)} {r : RespValue} {rs : RespValues}
      → Shows v r
      → ShowsAll vs rs
      → ShowsAll (v ∷ vs) (item r rs)

pub data ShowsArray : List (Option Bytes) → RespValue → Type 0 where
  shows_array :
      {vs : List (Option Bytes)} {rs : RespValues} → ShowsAll vs rs → ShowsArray vs (array rs)

pub data SaysOk {A : Type 0} : A → RespValue → Type 0 where
  says_ok : {x : A} → SaysOk x (simple_string (codes "OK"))

-- The 64 bits of a number, read with a sign.
pub data ShowsSigned : ℕ → RespValue → Type 0 where
  shows_low : {n : ℕ} → n < 2 ^ 63 → ShowsSigned n (integer (pos n))
  -- n - 2^64
  shows_high : {n : ℕ} → 2 ^ 63 ≤ n → ShowsSigned n (integer (negsuc (2 ^ 64 - 1 - n)))

-- DEL and EXISTS of several keys, one behind the other, with the number counted before and after. A key that is too long
-- is not counted.
pub data DelAll : List Bytes → ℕ → AbstractMap → ℕ → AbstractMap → Type 0 where
  del_done : {n : ℕ} {m : AbstractMap} → DelAll [] n m n m
  del_counts :
      {key : Bytes} {keys : List Bytes} {n k : ℕ} {m m' m'' : AbstractMap}
      → DelStep m key (ok true) m'
      → DelAll keys (n + 1) m' k m''
      → DelAll (key ∷ keys) n m k m''
  del_misses :
      {key : Bytes} {keys : List Bytes} {n k : ℕ} {m m' m'' : AbstractMap}
      → DelStep m key (ok false) m'
      → DelAll keys n m' k m''
      → DelAll (key ∷ keys) n m k m''
  del_passes :
      {key : Bytes} {keys : List Bytes} {n k : ℕ} {e : MemLaneError} {m m' m'' : AbstractMap}
      → DelStep m key (err e) m'
      → DelAll keys n m' k m''
      → DelAll (key ∷ keys) n m k m''

pub data ExistsAll : Clocks → List Bytes → ℕ → AbstractMap → ℕ → AbstractMap → Type 0 where
  exists_done : {clocks : Clocks} {n : ℕ} {m : AbstractMap} → ExistsAll clocks [] n m n m
  exists_counts :
      {clocks : Clocks} {key : Bytes} {keys : List Bytes} {n k : ℕ} {m m' m'' : AbstractMap}
      → ExistsStep m (clocks 0) key (ok true) m'
      → ExistsAll (later clocks) keys (n + 1) m' k m''
      → ExistsAll clocks (key ∷ keys) n m k m''
  exists_misses :
      {clocks : Clocks} {key : Bytes} {keys : List Bytes} {n k : ℕ} {m m' m'' : AbstractMap}
      → ExistsStep m (clocks 0) key (ok false) m'
      → ExistsAll (later clocks) keys n m' k m''
      → ExistsAll clocks (key ∷ keys) n m k m''
  exists_passes :
      {clocks : Clocks} {key : Bytes} {keys : List Bytes} {n k : ℕ} {e : MemLaneError}
      {m m' m'' : AbstractMap}
      → ExistsStep m (clocks 0) key (err e) m'
      → ExistsAll (later clocks) keys n m' k m''
      → ExistsAll clocks (key ∷ keys) n m k m''

-- The arguments are these keys, each with its value.
pub data Pairs : List Bytes → List (Bytes × Bytes) → Type 0 where
  no_pairs : Pairs [] []
  a_pair :
      {key val : Bytes} {args : List Bytes} {pairs : List (Bytes × Bytes)}
      → Pairs args pairs
      → Pairs (key ∷ val ∷ args) ((key, val) ∷ pairs)

abbrev pub first_of : List Bytes → List Bytes
first_of [] = []
first_of (key ∷ args) = key ∷ []

abbrev pub every_other : List Bytes → List Bytes
every_other [] = []
every_other (key ∷ []) = []
every_other (key ∷ val ∷ args) = key ∷ every_other args

-- The arguments of a command that are keys.
abbrev pub keys_of : Bytes → List Bytes → List Bytes
keys_of name args =
    if bytes_eq name (codes "SET")
    then first_of args
    else if bytes_eq name (codes "MSET")
    then every_other args
    else if is_among
        (codes "GET"
          ∷ codes "DEL"
          ∷ codes "EXISTS"
          ∷ codes "MGET"
          ∷ codes "INCR"
          ∷ codes "DECR"
          ∷ [])
        name
    then args
    else []

-- The keys of what the dispatcher took a request to be.
abbrev pub keys_in : Result Bytes Command → List Bytes
keys_in (ok cmd) = keys_of cmd.name cmd.args
keys_in (err e) = []

-- Values that are bulk strings.
pub data Strings : RespValues → List Bytes → Type 0 where
  no_strings : Strings no_items []
  a_string :
      {b : Bytes} {vs : RespValues} {args : List Bytes}
      → Strings vs args
      → Strings (item (bulk_string b) vs) (b ∷ args)

module _ (text : TextOps) where
  -- A request is an array of bulk strings, the first of which is the name of a command in UTF-8.
  pub data Request : RespValue → Bytes → List Bytes → Type 0 where
    request :
        {name : Bytes} {vs : RespValues} {args : List Bytes}
        → is_utf8 name ≡ true
        → Strings vs args
        → Request (array (item (bulk_string name) vs)) (text.to_uppercase name) args

  -- The options of SET: the seconds before them, and after. The last of several counts.
  pub data Options : ℕ → List Bytes → ℕ → Type 0 where
    no_options : {ttl : ℕ} → Options ttl [] ttl
    last_alone : {ttl : ℕ} {opt : Bytes} → Options ttl (opt ∷ []) ttl
    in_seconds :
        {ttl n t : ℕ} {opt arg : Bytes} {rest : List Bytes}
        → text.to_uppercase (text.from_utf8_lossy opt) ≡ codes "EX"
        → ReadsAs (text.from_utf8_lossy arg) n
        → Options n rest t
        → Options ttl (opt ∷ arg ∷ rest) t
    in_milliseconds :
        {ttl n t : ℕ} {opt arg : Bytes} {rest : List Bytes}
        → text.to_uppercase (text.from_utf8_lossy opt) ≡ codes "PX"
        → ReadsAs (text.from_utf8_lossy arg) n
        → Options ((n + 999) % 2 ^ 64 / 1000) rest t
        → Options ttl (opt ∷ arg ∷ rest) t
    passed_over :
        {ttl t : ℕ} {opt arg : Bytes} {rest : List Bytes}
        → text.to_uppercase (text.from_utf8_lossy opt) ≢ codes "EX"
        → text.to_uppercase (text.from_utf8_lossy opt) ≢ codes "PX"
        → Options ttl (arg ∷ rest) t
        → Options ttl (opt ∷ arg ∷ rest) t

  -- The commands, by name and arguments, on a map. What INFO says is left open.
  pub data Call (clocks : Clocks) (m : AbstractMap)
      : Bytes → List Bytes → RespValue → AbstractMap → Type 0 where
    call_ping : Call clocks m (codes "PING") [] (simple_string (codes "PONG")) m
    call_echo :
        {message : Bytes} {args : List Bytes}
        → Call clocks m (codes "PING") (message ∷ args) (bulk_string message) m
    call_get :
        {key : Bytes} {r : Result MemLaneError (Option Bytes)} {out : RespValue} {m' : AbstractMap}
        → GetStep m (clocks 0) key r m'
        → Outcome Shows r out
        → Call clocks m (codes "GET") (key ∷ []) out m'
    call_set :
        {key val : Bytes} {options : List Bytes} {ttl_secs : ℕ} {r : Result MemLaneError Bool}
        {out : RespValue} {m' : AbstractMap}
        → Options 0 options ttl_secs
        → SetStep m (clocks 0) key val ttl_secs r m'
        → Outcome SaysOk r out
        → Call clocks m (codes "SET") (key ∷ val ∷ options) out m'
    call_del :
        {key : Bytes} {keys : List Bytes} {n : ℕ} {m' : AbstractMap}
        → DelAll (key ∷ keys) 0 m n m'
        → Call clocks m (codes "DEL") (key ∷ keys) (integer (pos n)) m'
    call_exists :
        {key : Bytes} {keys : List Bytes} {n : ℕ} {m' : AbstractMap}
        → ExistsAll clocks (key ∷ keys) 0 m n m'
        → Call clocks m (codes "EXISTS") (key ∷ keys) (integer (pos n)) m'
    call_mget :
        {key : Bytes} {keys : List Bytes} {r : Result MemLaneError (List (Option Bytes))}
        {out : RespValue} {m' : AbstractMap}
        → MgetStep clocks (key ∷ keys) m r m'
        → Outcome ShowsArray r out
        → Call clocks m (codes "MGET") (key ∷ keys) out m'
    call_mset :
        {key val : Bytes} {args : List Bytes} {pairs : List (Bytes × Bytes)}
        {r : Result MemLaneError ℕ} {out : RespValue} {m' : AbstractMap}
        → Pairs args pairs
        → MsetStep clocks 0 0 ((key, val) ∷ pairs) m r m'
        → Outcome SaysOk r out
        → Call clocks m (codes "MSET") (key ∷ val ∷ args) out m'
    call_incr :
        {key : Bytes} {r : Result MemLaneError ℕ} {out : RespValue} {m' : AbstractMap}
        → CountStep (λ n. (n + 1) % 2 ^ 64) clocks key m r m'
        → Outcome ShowsSigned r out
        → Call clocks m (codes "INCR") (key ∷ []) out m'
    call_decr :
        {key : Bytes} {r : Result MemLaneError ℕ} {out : RespValue} {m' : AbstractMap}
        → CountStep (λ n. n - 1) clocks key m r m'
        → Outcome ShowsSigned r out
        → Call clocks m (codes "DECR") (key ∷ []) out m'
    call_ttl : {key : Bytes} → Call clocks m (codes "TTL") (key ∷ []) (integer (negsuc 0)) m
    call_flush :
        {name : Bytes} {args : List Bytes}
        → is_among flush_names name ≡ true
        → Call clocks m name args (simple_string (codes "OK")) no_entries
    call_info :
        {args : List Bytes} (info : Bytes) → Call clocks m (codes "INFO") args (bulk_string info) m
    call_command : {args : List Bytes} → Call clocks m (codes "COMMAND") args (array no_items) m
    call_wrong_args :
        {name : Bytes} {args : List Bytes}
        → takes_args name (length args) ≡ false
        → Call clocks m name args
            (error (
              codes "ERR wrong number of arguments for '"
              ++ (text.to_lowercase name ++ codes "' command")))
            m
    call_unknown :
        {name : Bytes} {args : List Bytes}
        → is_among command_names name ≡ false
        → Call clocks m name args
            (error (
              codes "ERR unknown command '"
              ++ (text.to_lowercase name
                  ++ codes
                      "', try PING, GET, SET, DEL, EXISTS, MGET, MSET, INCR, DECR, FLUSH, INFO")))
            m

  -- Values, one behind the other, with the encoded replies. What the error says, behind `ERR`, to a value that is no request is left open.
  pub data Dialogue
      : (ℕ → Clocks) → List RespValue → AbstractMap → Bytes → AbstractMap → Type 0 where
    over : {clocks : ℕ → Clocks} {m : AbstractMap} → Dialogue clocks [] m [] m
    misunderstood :
        {clocks : ℕ → Clocks} {v : RespValue} {vs : List RespValue} {out : Bytes}
        {m m' : AbstractMap} (e : Bytes)
        → ((name : Bytes) (args : List Bytes) → ¬ Request v name args)
        → Dialogue (λ k. clocks (suc k)) vs m out m'
        → Dialogue clocks (v ∷ vs) m (encode (error (codes "ERR " ++ e)) ++ out) m'
    answered :
        {clocks : ℕ → Clocks} {v r : RespValue} {vs : List RespValue} {name : Bytes}
        {args : List Bytes} {out : Bytes} {m m' m'' : AbstractMap}
        → Request v name args
        → Call (clocks 0) m name args r m'
        → Dialogue (λ k. clocks (suc k)) vs m' out m''
        → Dialogue clocks (v ∷ vs) m (encode r ++ out) m''
