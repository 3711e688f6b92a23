-- ===== src/Server/Connection.antt =====
-- src/server/mod.rs: the loop of `handle_client` that serves the bytes of one connection.
use memlane.Arena.{Arena}
use memlane.Client.{Clocks}
use memlane.Prelude.{ℕ, zero, suc, Bool, true, false, [], ◌++◌, Bytes, codes, length, drop}
use memlane.Resp.Command.{TextOps, err_reply}
use memlane.Resp.{value, more, protocol, crash, out_of_fuel, parse, encode}
use memlane.Server.{dispatch_command}

-- The state of a connection's loop: the arena, the bytes that are not parsed yet, the bytes that were
-- written, and whether the process has crashed. Writes to the socket are taken to succeed.
pub record Served : Type 0 where
  pub arena : Arena
  pub pending : Bytes
  pub written : Bytes
  pub crashed : Bool

-- `e.to_string()` of a protocol error.
abbrev pub protocol_text : Bytes → Bytes
protocol_text m = codes "Protocol error: " ++ m

module _ (text : TextOps) (can_reserve : ℕ → Bool) where
  -- The inner loop: parse and dispatch the complete commands of the buffer. `clocks n` serves the
  -- n-th of them. Every command takes bytes, so the length of the buffer is fuel enough.
  unfoldable pub serve_loop : ℕ → (ℕ → Clocks) → Arena → Bytes → Bytes → Served
  serve_loop zero clocks a pending written = record {
    arena = a;
    pending = pending;
    written = written;
    crashed = false;
  }
  serve_loop (suc f) clocks a pending written = elim (parse can_reserve pending) [
    | value v consumed ↦
        let (a', response) = dispatch_command text (clocks 0) a v in
        serve_loop f (λ n. clocks (suc n)) a' (drop consumed pending) (written ++ encode response)
    | more ↦ record { arena = a; pending = pending; written = written; crashed = false }
    | protocol m ↦ record {
      arena = a;
      pending = [];
      written = written ++ encode (err_reply (protocol_text m));
      crashed = false;
    }
    | crash ↦ record { arena = a; pending = pending; written = written; crashed = true }
    | out_of_fuel ↦ record { arena = a; pending = pending; written = written; crashed = false }
  ]

  -- One `read` of a connection: what it brought is put behind the bytes that were left.
  unfoldable pub serve_chunk : (ℕ → Clocks) → Served → Bytes → Served
  serve_chunk clocks s chunk =
      let buf = s.pending ++ chunk in serve_loop (suc (length buf)) clocks s.arena buf s.written
