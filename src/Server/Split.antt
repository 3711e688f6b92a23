-- ===== src/Server/Split.antt =====
-- The loop of `handle_client` in src/server/mod.rs does not depend on how the bytes are cut into reads.
use memlane.Arena.{Arena}
use memlane.Client.{Clocks}
use memlane.Prelude.{
  ℕ, zero, suc, ◌+◌, ◌<◌, ◌≡◌, refl, sym, ap, ◌∙◌, Bool, false, List, [], ◌∷◌, ◌++◌, Bytes, length,
  length-append, length-drop, append_assoc, append-nil, drop, drop-append_le, arith,
}
use memlane.Resp.Command.{TextOps}
use memlane.Resp.Extend.{parse_value-append, value-le}
use memlane.Resp.Reads.{Reads, reads_done, reads_next, parse_all-Reads}
use memlane.Resp.{RespValue, value, more, parse, encode, parse_all}
use memlane.Server.Connection.{Served, serve_loop, serve_chunk}
use memlane.Server.Loop.{serve_loop-IsDrained}
use memlane.Server.Pipeline.{dispatch_all, serve_loop-value}
use memlane.Server.{dispatch_command}
use mathlib.Core.Path.{fun_ext}

module _ (text : TextOps) (can_reserve : ℕ → Bool) where
  -- The values of a buffer are dispatched in their order, and what came behind the buffer is served with
  -- the incomplete rest.
  serve_loop-Reads :
      {buf rest : Bytes} {vs : List RespValue} (reads : Reads can_reserve buf vs rest) (f g : ℕ)
      (clocks : ℕ → Clocks) (a : Arena) (behind written : Bytes)
      → length (buf ++ behind) < f
      → length (rest ++ behind) < g
      → serve_loop text can_reserve f clocks a (buf ++ behind) written
        ≡ serve_loop text can_reserve g
            (λ n. clocks (length vs + n))
            (dispatch_all text clocks a vs).0
            (rest ++ behind)
            (written ++ (dispatch_all text clocks a vs).1)
  serve_loop-Reads {buf} (reads_done e same) f g clocks a behind written hf hg =
      let same_clocks : (λ n. clocks (0 + n)) ≡ clocks = fun_ext λ n. ap clocks (omega arith) in
      rw (same, same_clocks, append-nil written)
        ((serve_loop-IsDrained text can_reserve f g clocks a (buf ++ behind) written hf
          (rw same at hg)).0)
  serve_loop-Reads (reads_next n e reads) zero g clocks a behind written hf hg =
      absurd (omega arith)
  serve_loop-Reads {buf} {rest} (reads_next {v = v} {vs = vs} n e reads) (suc f) g clocks a behind
        written hf hg =
      let (b, response) = dispatch_command text (clocks 0) a v in
      let (lo, hi) = value-le can_reserve buf v n e in
      let cut = drop-append_le n buf behind hi in
      let shorter : length (drop n buf ++ behind) < f =
        omega
          (arith, length-drop n buf, length-append (drop n buf) behind, length-append buf behind) in
      let same_clocks : (λ k. clocks (suc (length vs + k))) ≡ (λ k. clocks (suc (length vs) + k)) =
        fun_ext λ k. ap clocks (omega arith) in
      serve_loop-value text can_reserve f clocks a v n (buf ++ behind) written
        (parse_value-append can_reserve buf behind v n e)
      ∙ ap
          (λ t.
            serve_loop text can_reserve f (λ k. clocks (suc k)) b t (written ++ encode response))
          cut
      ∙ serve_loop-Reads reads f g (λ k. clocks (suc k)) b behind (written ++ encode response)
          shorter hg
      ∙ ap
          (λ w.
            serve_loop text can_reserve g (λ k. clocks (suc (length vs + k)))
              (dispatch_all text (λ k. clocks (suc k)) b vs).0 (rest ++ behind) w)
          (append_assoc written (encode response) (dispatch_all text (λ k. clocks (suc k)) b vs).1)
      ∙ ap
          (λ c.
            serve_loop text can_reserve g c (dispatch_all text clocks a (v ∷ vs)).0 (rest ++ behind)
              (written ++ (dispatch_all text clocks a (v ∷ vs)).1))
          same_clocks

  serve_loop-more :
      (f : ℕ) (clocks : ℕ → Clocks) (a : Arena) (pending written : Bytes)
      → parse can_reserve pending ≡ more
      → serve_loop text can_reserve (suc f) clocks a pending written
        ≡ (record { arena = a; pending = pending; written = written; crashed = false })
  unfolding serve_loop
  serve_loop-more f clocks a pending written e = rw (e, serve_loop) refl

  Reads-more :
      {buf rest : Bytes} {vs : List RespValue}
      → Reads can_reserve buf vs rest
      → parse can_reserve rest ≡ more
  Reads-more (reads_done e same) = rw same e
  Reads-more (reads_next n e reads) = Reads-more reads

  serve_loop_alone :
      {buf rest : Bytes} {vs : List RespValue} (reads : Reads can_reserve buf vs rest)
      (clocks : ℕ → Clocks) (a : Arena) (written : Bytes)
      → serve_loop text can_reserve (suc (length buf)) clocks a buf written ≡ (record {
        arena = (dispatch_all text clocks a vs).0;
        pending = rest;
        written = written ++ (dispatch_all text clocks a vs).1;
        crashed = false;
      })
  serve_loop_alone {buf} {rest} {vs} reads clocks a written =
      ap (λ b. serve_loop text can_reserve (suc (length b)) clocks a b written)
        (sym (append-nil buf))
      ∙ serve_loop-Reads reads (suc (length (buf ++ []))) (suc (length (rest ++ []))) clocks a []
          written (omega arith) (omega arith)
      ∙ ap
          (λ r.
            serve_loop text can_reserve (suc (length r)) (λ k. clocks (length vs + k))
              (dispatch_all text clocks a vs).0 r (written ++ (dispatch_all text clocks a vs).1))
          (append-nil rest)
      ∙ serve_loop-more (length rest) (λ k. clocks (length vs + k))
          (dispatch_all text clocks a vs).0 rest (written ++ (dispatch_all text clocks a vs).1)
          (Reads-more reads)

  -- A read that brings two pieces does what two reads do that bring one each, for every cut at which
  -- `parse_all` takes the pending bytes and the first piece without a protocol error: the commands that it
  -- reads are served by the first of the two, and the clocks go on behind them.
  pub serve_chunk-append :
      (clocks : ℕ → Clocks) (s : Served) (first second : Bytes) (vs : List RespValue) (n : ℕ)
      → parse_all can_reserve (s.pending ++ first) ≡ value vs n
      → serve_chunk text can_reserve clocks s (first ++ second)
        ≡ serve_chunk text can_reserve
            (λ i. clocks (length vs + i))
            (serve_chunk text can_reserve clocks s first)
            second
  unfolding serve_chunk
  serve_chunk-append clocks s first second vs n e =
      let buf = s.pending ++ first in
      let rest = drop n buf in
      let reads = parse_all-Reads can_reserve buf vs n e in
      let after = serve_loop_alone reads clocks s.arena s.written in
      ap (λ b. serve_loop text can_reserve (suc (length b)) clocks s.arena b s.written)
        (sym (append_assoc s.pending first second))
      ∙ serve_loop-Reads reads (suc (length (buf ++ second))) (suc (length (rest ++ second))) clocks
          s.arena second s.written (omega arith) (omega arith)
      ∙ ap
          (λ t.
            serve_loop text can_reserve (suc (length (t.pending ++ second)))
              (λ i. clocks (length vs + i)) t.arena (t.pending ++ second) t.written)
          (sym after)
