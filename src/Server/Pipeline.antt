-- ===== src/Server/Pipeline.antt =====
-- Pipelined commands: what the loop of `handle_client` in src/server/mod.rs makes of the encodings of
-- several commands, one behind the other and cut anywhere.
use memlane.Arena.{Arena}
use memlane.Client.{Clocks}
use memlane.Prelude.{
  ℕ, zero, suc, ◌<◌, ◌≡◌, refl, ap, ◌∙◌, Bool, false, List, [], ◌∷◌, ◌++◌, Bytes, length,
  length-append, append_assoc, append-nil, drop, drop-append, arith,
}
use memlane.Resp.Command.{TextOps}
use memlane.Resp.RoundTrip.{parse-encode}
use memlane.Resp.Stream.{encode_all, CanEncodeAll, length-encode_all}
use memlane.Resp.{RespValue, value, more, parse, encode}
use memlane.Server.Connection.{Served, serve_loop, serve_chunk}
use memlane.Server.{dispatch_command}

-- The commands dispatched in order, with the encoded replies one behind the other.
abbrev pub dispatch_all : TextOps → (ℕ → Clocks) → Arena → List RespValue → Arena × Bytes
dispatch_all text clocks a [] = (a, [])
dispatch_all text clocks a (v ∷ vs) =
    let (b, response) = dispatch_command text (clocks 0) a v in
    let (c, responses) = dispatch_all text (λ n. clocks (suc n)) b vs in
    (c, encode response ++ responses)

module _ (text : TextOps) (can_reserve : ℕ → Bool) where
  pub serve_loop-value :
      (f : ℕ) (clocks : ℕ → Clocks) (a : Arena) (v : RespValue) (n : ℕ) (pending written : Bytes)
      → parse can_reserve pending ≡ value v n
      → serve_loop text can_reserve (suc f) clocks a pending written ≡ (
          let (b, response) = dispatch_command text (clocks 0) a v in
          serve_loop text can_reserve f
            (λ n. clocks (suc n))
            b
            (drop n pending)
            (written ++ encode response))
  unfolding serve_loop
  serve_loop-value f clocks a v n pending written e = rw (e, serve_loop) refl

  -- Commands before an incomplete one are dispatched in order, each reply is written behind those
  -- before it, and the incomplete one is left.
  serve_loop-encode_all :
      (vs : List RespValue) (f : ℕ) (clocks : ℕ → Clocks) (a : Arena) (rest written : Bytes)
      → CanEncodeAll can_reserve vs
      → parse can_reserve rest ≡ more
      → length vs < f
      → serve_loop text can_reserve f clocks a (encode_all vs ++ rest) written ≡ (record {
        arena = (dispatch_all text clocks a vs).0;
        pending = rest;
        written = written ++ (dispatch_all text clocks a vs).1;
        crashed = false;
      })
  unfolding serve_loop
  serve_loop-encode_all vs zero clocks a rest written can e lt = absurd (omega arith)
  serve_loop-encode_all [] (suc f) clocks a rest written can e lt =
      rw (e, serve_loop, append-nil written) refl
  serve_loop-encode_all (v ∷ vs) (suc f) clocks a rest written (can, cans) e lt =
      let (b, response) = dispatch_command text (clocks 0) a v in
      let whole = encode v ++ (encode_all vs ++ rest) in
      ap (λ buf. serve_loop text can_reserve (suc f) clocks a buf written)
        (append_assoc (encode v) (encode_all vs) rest)
      ∙ serve_loop-value f clocks a v (length (encode v)) whole written
          (parse-encode can_reserve v (encode_all vs ++ rest) can)
      ∙ ap
          (λ buf.
            serve_loop text can_reserve f (λ n. clocks (suc n)) b buf (written ++ encode response))
          (drop-append (length (encode v)) (encode v) (encode_all vs ++ rest) refl)
      ∙ serve_loop-encode_all vs f (λ n. clocks (suc n)) b rest (written ++ encode response) cans e
          (omega arith)
      ∙ ap
          (λ w. record {
            arena = (dispatch_all text (λ n. clocks (suc n)) b vs).0;
            pending = rest;
            written = w;
            crashed = false;
          })
          (append_assoc written (encode response) (dispatch_all text (λ n. clocks (suc n)) b vs).1)

  -- However the commands were cut by the reads before: once the pending bytes with what a read
  -- brings are the encodings of some commands, each such that `parse` reads it back, and an
  -- incomplete rest, those commands are dispatched in order, their encoded replies are written in
  -- that order behind what was written, and the rest stays pending.
  pub serve_chunk-encode_all :
      (clocks : ℕ → Clocks) (s : Served) (chunk : Bytes) (vs : List RespValue) (rest : Bytes)
      → CanEncodeAll can_reserve vs
      → parse can_reserve rest ≡ more
      → s.pending ++ chunk ≡ encode_all vs ++ rest
      → serve_chunk text can_reserve clocks s chunk ≡ (record {
        arena = (dispatch_all text clocks s.arena vs).0;
        pending = rest;
        written = s.written ++ (dispatch_all text clocks s.arena vs).1;
        crashed = false;
      })
  unfolding serve_chunk
  serve_chunk-encode_all clocks s chunk vs rest can e whole = rw whole (
      serve_loop-encode_all vs (suc (length (encode_all vs ++ rest))) clocks s.arena rest s.written
        can e (omega (arith, length-encode_all vs, length-append (encode_all vs) rest)))
