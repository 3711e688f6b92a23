-- ===== src/Server/Reading.antt =====
-- src/server/mod.rs: what one read does, whatever bytes it brings.
use memlane.Arena.{Arena}
use memlane.Client.{Clocks}
use memlane.Prelude.{
  ℕ, zero, suc, ◌<◌, ◌≤◌, ◌≡◌, refl, ap, ◌∙◌, Bool, true, false, List, [], ◌∷◌, ◌++◌, Bytes, length,
  length-drop, append_assoc, append-nil, drop, arith,
}
use memlane.Resp.Command.{TextOps, err_reply}
use memlane.Resp.Fuel.{Takes, took, wants, refused, crashed, parse-Takes}
use memlane.Resp.{RespValue, Parsed, value, more, protocol, crash, out_of_fuel, parse, encode}
use memlane.Server.Connection.{Served, serve_loop, serve_chunk, protocol_text}
use memlane.Server.Pipeline.{dispatch_all, serve_loop-value}
use memlane.Server.{dispatch_command}

-- What stands behind the complete values of a buffer: the start of one, or nothing; bytes that no value starts with; or an
-- array for which there is no memory.
pub data Ending : Type 0 where
  incomplete : (rest : Bytes) → Ending
  malformed : (message : Bytes) → Ending
  too_large : (rest : Bytes) → Ending

module _ (text : TextOps) (can_reserve : ℕ → Bool) where
  -- The buffer is these values, one behind the other, and then the ending.
  pub data Reading : Bytes → List RespValue → Ending → Type 0 where
    at_incomplete : {buf : Bytes} → parse can_reserve buf ≡ more → Reading buf [] (incomplete buf)
    at_malformed :
        {buf message : Bytes}
        → parse can_reserve buf ≡ protocol message
        → Reading buf [] (malformed message)
    at_too_large : {buf : Bytes} → parse can_reserve buf ≡ crash → Reading buf [] (too_large buf)
    at_value :
        {buf : Bytes} {v : RespValue} {vs : List RespValue} {e : Ending} (n : ℕ)
        → parse can_reserve buf ≡ value v n
        → n ≤ length buf
        → 0 < n
        → Reading (drop n buf) vs e
        → Reading buf (v ∷ vs) e

  -- The connection after the values were served and the ending was met.
  abbrev pub ended_with : Arena → Bytes → Ending → Served
  ended_with a written (incomplete rest) = record {
    arena = a;
    pending = rest;
    written = written;
    crashed = false;
  }
  ended_with a written (malformed message) = record {
    arena = a;
    pending = [];
    written = written ++ encode (err_reply (protocol_text message));
    crashed = false;
  }
  ended_with a written (too_large rest) = record {
    arena = a;
    pending = rest;
    written = written;
    crashed = true;
  }

  -- Every buffer reads in one way.
  round-Reading :
      (buf : Bytes) (r : Parsed RespValue)
      → parse can_reserve buf ≡ r
      → Takes 3 (length buf) r
      → ((rest : Bytes)
          → length rest < length buf
          → (vs : List RespValue) × (e : Ending) × Reading rest vs e)
      → (vs : List RespValue) × (e : Ending) × Reading buf vs e
  round-Reading buf (value v n) p (took lo hi) rest =
      let (vs, e, reading) = rest (drop n buf) (omega (arith, length-drop n buf)) in
      (v ∷ vs, e, at_value n p hi (omega arith) reading)
  round-Reading buf more p wants rest = ([], incomplete buf, at_incomplete p)
  round-Reading buf (protocol m) p refused rest = ([], malformed m, at_malformed p)
  round-Reading buf crash p crashed rest = ([], too_large buf, at_too_large p)
  round-Reading buf out_of_fuel p t rest = elim t [ ]

  read_buffer :
      (fuel : ℕ) (buf : Bytes)
      → length buf < fuel
      → (vs : List RespValue) × (e : Ending) × Reading buf vs e
  read_buffer zero buf lt = absurd (omega arith)
  read_buffer (suc fuel) buf lt =
      round-Reading buf (parse can_reserve buf) refl (parse-Takes can_reserve buf)
        (λ rest shorter. read_buffer fuel rest (omega arith))

  serve_loop-Reading :
      {buf : Bytes} {vs : List RespValue} {e : Ending} (reading : Reading buf vs e) (f : ℕ)
      (clocks : ℕ → Clocks) (a : Arena) (written : Bytes)
      → length buf < f
      → serve_loop text can_reserve f clocks a buf written
        ≡ ended_with
            (dispatch_all text clocks a vs).0
            (written ++ (dispatch_all text clocks a vs).1)
            e
  unfolding serve_loop
  serve_loop-Reading reading zero clocks a written lt = absurd (omega arith)
  serve_loop-Reading (at_incomplete p) (suc f) clocks a written lt =
      rw (p, serve_loop, append-nil written) refl
  serve_loop-Reading (at_malformed p) (suc f) clocks a written lt =
      rw (p, serve_loop, append-nil written) refl
  serve_loop-Reading (at_too_large p) (suc f) clocks a written lt =
      rw (p, serve_loop, append-nil written) refl
  serve_loop-Reading {buf} (at_value {v = v} {vs = vs} {e = e} n p hi some_taken reading) (suc f)
        clocks a written lt =
      let (b, response) = dispatch_command text (clocks 0) a v in
      serve_loop-value text can_reserve f clocks a v n buf written p
      ∙ serve_loop-Reading reading f (λ k. clocks (suc k)) b (written ++ encode response)
          (omega (arith, length-drop n buf))
      ∙ ap (λ w. ended_with (dispatch_all text (λ k. clocks (suc k)) b vs).0 w e)
          (append_assoc written (encode response) (dispatch_all text (λ k. clocks (suc k)) b vs).1)

  pub serve_chunk-ended_with :
      (clocks : ℕ → Clocks) (s : Served) (chunk : Bytes) {vs : List RespValue} {e : Ending}
      → Reading (s.pending ++ chunk) vs e
      → serve_chunk text can_reserve clocks s chunk
        ≡ ended_with
            (dispatch_all text clocks s.arena vs).0
            (s.written ++ (dispatch_all text clocks s.arena vs).1)
            e
  unfolding serve_chunk
  serve_chunk-ended_with clocks s chunk reading =
      serve_loop-Reading reading (suc (length (s.pending ++ chunk))) clocks s.arena s.written
        (omega arith)

  -- Whatever bytes a read brings: the pending bytes with those read are some complete values and an ending; the values
  -- are dispatched in order and their encoded replies written in that order; and then an incomplete value stays
  -- pending, malformed bytes are answered with an error and cleared with all that stands behind them, and an
  -- array for which there is no memory ends the process.
  pub serve_chunk-Reading :
      (clocks : ℕ → Clocks) (s : Served) (chunk : Bytes)
      → (vs : List RespValue) × (e : Ending) × Reading (s.pending ++ chunk) vs e
        × (serve_chunk text can_reserve clocks s chunk
            ≡ ended_with
                (dispatch_all text clocks s.arena vs).0
                (s.written ++ (dispatch_all text clocks s.arena vs).1)
                e)
  serve_chunk-Reading clocks s chunk =
      let buf = s.pending ++ chunk in
      let (vs, e, reading) = read_buffer (suc (length buf)) buf (omega arith) in
      (vs, e, reading, serve_chunk-ended_with clocks s chunk reading)
