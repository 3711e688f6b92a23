-- ===== src/Server/Untouched.antt =====
-- src/server/mod.rs: one connection whose commands alone access the arena.
use memlane.Arena.{Arena}
use memlane.Client.{Clocks}
use memlane.Hashmap.Invariant.{IsValid}
use memlane.Prelude.{ℕ, suc, sym, subst, Bool, List, [], ◌∷◌, Bytes}
use memlane.Resp.Command.{TextOps}
use memlane.Resp.{RespValue}
use memlane.Server.Connection.{Served, serve_chunk}
use memlane.Server.Pipeline.{dispatch_all}
use memlane.Server.Reading.{
  Ending, incomplete, malformed, too_large, ended_with, serve_chunk-Reading,
}
use memlane.Server.Safe.{dispatch_command-IsValid}
use memlane.Server.{dispatch_command}

module _ (text : TextOps) where
  dispatch_all-IsValid :
      (vs : List RespValue) (clocks : ℕ → Clocks) (a : Arena)
      → IsValid a
      → IsValid (dispatch_all text clocks a vs).0
  dispatch_all-IsValid [] clocks a v = v
  dispatch_all-IsValid (r ∷ vs) clocks a v =
      dispatch_all-IsValid vs (λ k. clocks (suc k)) (dispatch_command text (clocks 0) a r).0
        (dispatch_command-IsValid (clocks 0) a v text r)

  module _ (can_reserve : ℕ → Bool) where
    ended_with-IsValid :
        (a : Arena) (written : Bytes) (e : Ending)
        → IsValid a
        → IsValid (ended_with text can_reserve a written e).arena
    ended_with-IsValid a written (incomplete rest) v = v
    ended_with-IsValid a written (malformed message) v = v
    ended_with-IsValid a written (too_large rest) v = v

    -- Whatever bytes one read of a connection brings, and whatever keys collide: if nobody else accesses the arena
    -- until the commands of the read are dispatched, a valid arena is valid after it, also when the read ends in
    -- bytes that are refused, or in an array that ends the process.
    pub serve_chunk-IsValid :
        (clocks : ℕ → Clocks) (s : Served) (chunk : Bytes)
        → IsValid s.arena
        → IsValid (serve_chunk text can_reserve clocks s chunk).arena
    serve_chunk-IsValid clocks s chunk v =
        let (vs, e, reading, eq) = serve_chunk-Reading text can_reserve clocks s chunk in
        subst (λ (r : Served). IsValid r.arena) (sym eq)
          (ended_with-IsValid _ _ e (dispatch_all-IsValid vs clocks s.arena v))
