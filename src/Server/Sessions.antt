-- ===== src/Server/Sessions.antt =====
-- src/server/mod.rs: `run_server` with the tasks of its connections, as a step relation. The runtime has several
-- threads, and the tasks share the arena without a lock: other tasks, and other processes, access it between two
-- accesses of a dispatch. So the arena is no part of the state here, and a dispatch may give any reply. Sockets and
-- the runtime are the environment, which chooses the steps.
pub mod Fairness
use memlane.Prelude.{
  ℕ, ◌≡◌, Bool, true, false, Option, none, some, [], ◌++◌, Bytes, drop, update, length, ◌<◌, ◌≤◌,
}
use memlane.Resp.Command.{err_reply}
use memlane.Resp.{RespValue, value, more, protocol, crash, parse, encode}
use memlane.Server.Connection.{protocol_text}

-- The task of a connection: the bytes that are not parsed yet, and those written so far.
pub record Task : Type 0 where
  pub pending : Bytes
  pub written : Bytes

-- The task of each connection that is open, and whether the process is running.
pub record Sessions : Type 0 where
  pub tasks : ℕ → Option Task
  pub running : Bool

abbrev pub set_task : Sessions → ℕ → Option Task → Sessions
set_task s i t = record s { tasks = update s.tasks i t }

-- `READ_BUF_SIZE`
abbrev pub read_buf_size : ℕ
read_buf_size = 8192

module _ (can_reserve : ℕ → Bool) where
  pub data SessionStep (s : Sessions) : Sessions → Type 0 where
    -- `listener.accept()`, and a task is spawned
    accept :
        (i : ℕ)
        → s.running ≡ true
        → s.tasks i ≡ none
        → SessionStep s (set_task s i (some (record { pending = []; written = [] })))
    -- `socket.read` brought bytes, after the pending ones held no complete command
    receive :
        (i : ℕ) (t : Task) (chunk : Bytes)
        → s.running ≡ true
        → s.tasks i ≡ some t
        → parse can_reserve t.pending ≡ more
        → 0 < length chunk
        → length chunk ≤ read_buf_size
        → SessionStep s (set_task s i (some (record t { pending = t.pending ++ chunk })))
    -- a complete command at the front of the pending bytes is dispatched, and some reply written
    command :
        (i : ℕ) (t : Task) (v r : RespValue) (n : ℕ)
        → s.running ≡ true
        → s.tasks i ≡ some t
        → parse can_reserve t.pending ≡ value v n
        → SessionStep s (
            set_task s i
              (some (record { pending = drop n t.pending; written = t.written ++ encode r })))
    -- a protocol error is answered, and the pending bytes are cleared
    refuse :
        (i : ℕ) (t : Task) (m : Bytes)
        → s.running ≡ true
        → s.tasks i ≡ some t
        → parse can_reserve t.pending ≡ protocol m
        → SessionStep s (
            set_task s i (
              some (record {
                pending = [];
                written = t.written ++ encode (err_reply (protocol_text m));
              })))
    -- memory for an array runs out, and the process aborts
    abort :
        (i : ℕ) (t : Task)
        → s.running ≡ true
        → s.tasks i ≡ some t
        → parse can_reserve t.pending ≡ crash
        → SessionStep s (record s { running = false })
    -- the client disconnects, or a read or a write fails
    leave : (i : ℕ) → s.running ≡ true → SessionStep s (set_task s i none)
