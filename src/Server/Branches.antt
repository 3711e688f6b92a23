-- ===== src/Server/Branches.antt =====
-- src/server/mod.rs: the branches of the dispatcher, one for each name of a command.
use memlane.Arena.{Arena}
use memlane.Client.{Clocks}
use memlane.Hashmap.SafeRead.{both}
use memlane.Prelude.{
  ℕ, ◌%◌, ◌≡◌, refl, Bool, true, false, ◌&&◌, ◌||◌, ◌==◌, leb, branches, List, [], ◌∷◌, Bytes,
  bytes_eq, bytes_eq→eq, codes, length, if◌then◌else◌,
}
use memlane.Resp.Command.{TextOps}
use memlane.Resp.{RespValue, array, no_items}
use memlane.Server.{
  run_ping, run_get, run_set, run_del, run_exists, run_mget, run_mset, run_incr, run_decr, run_ttl,
  run_flush, run_info, checked, unknown_command, run_command,
}

-- How many arguments each command takes.
abbrev pub takes_args : Bytes → ℕ → Bool
takes_args name n =
    if bytes_eq name (codes "PING")
    then true
    else if bytes_eq name (codes "GET")
    then n == 1
    else if bytes_eq name (codes "SET")
    then leb 2 n
    else if bytes_eq name (codes "DEL")
    then leb 1 n
    else if bytes_eq name (codes "EXISTS")
    then leb 1 n
    else if bytes_eq name (codes "MGET")
    then leb 1 n
    else if bytes_eq name (codes "MSET")
    then leb 1 n && n % 2 == 0
    else if bytes_eq name (codes "INCR")
    then n == 1
    else if bytes_eq name (codes "DECR")
    then n == 1
    else if bytes_eq name (codes "TTL")
    then n == 1
    else true

abbrev pub is_among : List Bytes → Bytes → Bool
is_among [] name = false
is_among (word ∷ words) name = bytes_eq name word || is_among words name

abbrev pub command_names : List Bytes
command_names =
    codes "PING"
    ∷ codes "GET"
    ∷ codes "SET"
    ∷ codes "DEL"
    ∷ codes "EXISTS"
    ∷ codes "MGET"
    ∷ codes "MSET"
    ∷ codes "INCR"
    ∷ codes "DECR"
    ∷ codes "TTL"
    ∷ codes "FLUSH"
    ∷ codes "FLUSHALL"
    ∷ codes "FLUSHDB"
    ∷ codes "INFO"
    ∷ codes "COMMAND"
    ∷ []

abbrev pub flush_names : List Bytes
flush_names = codes "FLUSH" ∷ codes "FLUSHALL" ∷ codes "FLUSHDB" ∷ []

module _ (text : TextOps) (clocks : Clocks) (a : Arena) (name : Bytes) (args : List Bytes) where
  -- What holds of each branch, with whether the command takes so many arguments.
  pub record Branches (Q : Bool → Arena × RespValue → Type 0) : Type 0 where
    pub on_ping : name ≡ codes "PING" → Q true (a, run_ping args)
    pub on_get :
        name ≡ codes "GET"
        → Q (length args == 1) (checked text a (codes "GET") (run_get clocks a args))
    pub on_set :
        name ≡ codes "SET"
        → Q (leb 2 (length args)) (checked text a (codes "SET") (run_set text clocks a args))
    pub on_del :
        name ≡ codes "DEL" → Q (leb 1 (length args)) (checked text a (codes "DEL") (run_del a args))
    pub on_exists :
        name ≡ codes "EXISTS"
        → Q (leb 1 (length args)) (checked text a (codes "EXISTS") (run_exists clocks a args))
    pub on_mget :
        name ≡ codes "MGET"
        → Q (leb 1 (length args)) (checked text a (codes "MGET") (run_mget clocks a args))
    pub on_mset :
        name ≡ codes "MSET"
        → Q
            (leb 1 (length args) && length args % 2 == 0)
            (checked text a (codes "MSET") (run_mset clocks a args))
    pub on_incr :
        name ≡ codes "INCR"
        → Q (length args == 1) (checked text a (codes "INCR") (run_incr clocks a args))
    pub on_decr :
        name ≡ codes "DECR"
        → Q (length args == 1) (checked text a (codes "DECR") (run_decr clocks a args))
    pub on_ttl :
        name ≡ codes "TTL" → Q (length args == 1) (checked text a (codes "TTL") (run_ttl a args))
    pub on_flush : is_among flush_names name ≡ true → Q true (run_flush a)
    pub on_info : name ≡ codes "INFO" → Q true (run_info text a)
    pub on_command : name ≡ codes "COMMAND" → Q true (a, array no_items)
    pub on_unknown : is_among command_names name ≡ false → Q true (a, unknown_command text name)

  pub run_command_branches :
      (Q : Bool → Arena × RespValue → Type 0)
      → Branches Q
      → Q (takes_args name (length args)) (run_command text clocks a name args)
  unfolding run_command
  run_command_branches Q h =
      branches Q (bytes_eq name (codes "PING")) (λ e. h.on_ping (bytes_eq→eq name (codes "PING") e))
        λ n0.
          branches Q (bytes_eq name (codes "GET"))
            (λ e. h.on_get (bytes_eq→eq name (codes "GET") e))
            λ n1.
              branches Q (bytes_eq name (codes "SET"))
                (λ e. h.on_set (bytes_eq→eq name (codes "SET") e))
                λ n2.
                  branches Q (bytes_eq name (codes "DEL"))
                    (λ e. h.on_del (bytes_eq→eq name (codes "DEL") e))
                    λ n3.
                      branches Q (bytes_eq name (codes "EXISTS"))
                        (λ e. h.on_exists (bytes_eq→eq name (codes "EXISTS") e))
                        λ n4.
                          branches Q (bytes_eq name (codes "MGET"))
                            (λ e. h.on_mget (bytes_eq→eq name (codes "MGET") e))
                            λ n5.
                              branches Q (bytes_eq name (codes "MSET"))
                                (λ e. h.on_mset (bytes_eq→eq name (codes "MSET") e))
                                λ n6.
                                  branches Q (bytes_eq name (codes "INCR"))
                                    (λ e. h.on_incr (bytes_eq→eq name (codes "INCR") e))
                                    λ n7.
                                      branches Q (bytes_eq name (codes "DECR"))
                                        (λ e. h.on_decr (bytes_eq→eq name (codes "DECR") e))
                                        λ n8.
                                          branches Q (bytes_eq name (codes "TTL"))
                                            (λ e. h.on_ttl (bytes_eq→eq name (codes "TTL") e))
                                            λ n9.
                                              both (Q true) (bytes_eq name (codes "FLUSH"))
                                                (λ e. h.on_flush (rw (e) refl))
                                                λ n10.
                                                  both (Q true) (bytes_eq name (codes "FLUSHALL"))
                                                    (λ e. h.on_flush (rw (n10, e) refl))
                                                    λ n11.
                                                      both (Q true)
                                                        (bytes_eq name (codes "FLUSHDB"))
                                                        (λ e. h.on_flush (rw (n10, n11, e) refl))
                                                        λ n12.
                                                          both (Q true)
                                                            (bytes_eq name (codes "INFO"))
                                                            (λ e.
                                                            h.on_info
                                                            (bytes_eq→eq name (codes "INFO") e))
                                                            λ n13.
                                                            both (Q true)
                                                            (bytes_eq name (codes "COMMAND"))
                                                            (λ e.
                                                            h.on_command
                                                            (bytes_eq→eq name (codes "COMMAND") e))
                                                            λ n14. h.on_unknown (
                                                            rw
                                                            (
                                                            n0, n1, n2, n3, n4, n5, n6, n7, n8, n9,
                                                            n10, n11, n12, n13, n14,
                                                            )
                                                            refl)
