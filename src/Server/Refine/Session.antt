-- ===== src/Server/Refine/Session.antt =====
-- What a connection of src/server/mod.rs answers to the bytes of a read, against the abstract map.
use memlane.Arena.{Arena}
use memlane.Client.Batch.{AllUsed}
use memlane.Client.{Clocks}
use memlane.Hashmap.Alone.{Separates}
use memlane.Hashmap.Invariant.{AbstractMap}
use memlane.Hashmap.Run.{Holds}
use memlane.Prelude.{ℕ, suc, ◌≡◌, refl, Bool, List, [], ◌∷◌, ◌++◌, Bytes, Result, ok, err}
use memlane.Resp.Command.{TextOps, Command, extract_command}
use memlane.Resp.{RespValue, encode}
use memlane.Server.Calls.{Dialogue, over, misunderstood, answered, keys_in}
use memlane.Server.Connection.{Served, serve_chunk}
use memlane.Server.Pipeline.{dispatch_all}
use memlane.Server.Reading.{Ending, Reading, ended_with, serve_chunk-ended_with}
use memlane.Server.Refine.{run_command-Answers}
use memlane.Server.Replies.{extract_command-Request, extract_command-err}
use memlane.Server.{dispatch_command}

module _ {Uses : Bytes → Type 0} (apart : Separates Uses) (text : TextOps) where
  -- The keys of all requests are in `Uses`.
  abbrev pub AllRequestsUsed : List RespValue → Type 0
  AllRequestsUsed [] = Unit {0}
  AllRequestsUsed (v ∷ vs) = AllUsed apart (keys_in (extract_command text v)) × AllRequestsUsed vs

  -- One request was answered: what follows it makes a dialogue with it.
  record Heard (clocks : ℕ → Clocks) (a : Arena) (m : AbstractMap) (v : RespValue) : Type 0 where
    pub map : AbstractMap
    pub holds : Holds Uses (dispatch_command text (clocks 0) a v).0 map
    pub before :
        (vs : List RespValue) (out : Bytes) (m' : AbstractMap)
        → Dialogue text (λ k. clocks (suc k)) vs map out m'
        → Dialogue text clocks
            (v ∷ vs)
            m
            (encode (dispatch_command text (clocks 0) a v).1 ++ out)
            m'

  dispatch_command-Heard :
      (clocks : ℕ → Clocks) (a : Arena) (m : AbstractMap) (v : RespValue) (c : Result Bytes Command)
      → extract_command text v ≡ c
      → AllUsed apart (keys_in c)
      → Holds Uses a m
      → Heard clocks a m v
  unfolding dispatch_command
  dispatch_command-Heard clocks a m v (ok cmd) e used h =
      let k = run_command-Answers apart text (clocks 0) h cmd.name cmd.args used in
      record {
        map = k.map;
        holds = rw (e, dispatch_command) k.holds;
        before = λ vs out m' rest.
            rw (e, dispatch_command) (answered (extract_command-Request text v cmd e) k.step rest);
      }
  dispatch_command-Heard clocks a m v (err t) e used h = record {
    map = m;
    holds = rw (e, dispatch_command) h;
    before = λ vs out m' rest.
        rw (e, dispatch_command) (misunderstood t (extract_command-err text v t e) rest);
  }

  pub dispatch_all-Dialogue :
      (vs : List RespValue) (clocks : ℕ → Clocks) (a : Arena) (m : AbstractMap)
      → AllRequestsUsed vs
      → Holds Uses a m
      → (m' : AbstractMap) × Dialogue text clocks vs m (dispatch_all text clocks a vs).1 m'
        × Holds Uses (dispatch_all text clocks a vs).0 m'
  dispatch_all-Dialogue [] clocks a m used h = (m, over, h)
  dispatch_all-Dialogue (v ∷ vs) clocks a m (mine, others) h =
      let heard = dispatch_command-Heard clocks a m v (extract_command text v) refl mine h in
      let (m', rest, holds) =
        dispatch_all-Dialogue vs (λ k. clocks (suc k)) (dispatch_command text (clocks 0) a v).0
          heard.map others heard.holds in
      (m', heard.before vs _ m' rest, holds)

  -- A connection answers a read as the abstract map does, while nobody else accesses the arena. Let the arena be
  -- valid and model a map with keys among some that the hash tells apart, let the pending bytes with those read be
  -- some complete values and an ending, and let the keys of these requests be among those. Then the bytes written
  -- for the values are the encoded replies of a dialogue with the map, in which each request gives the reply and
  -- the map that its command promises (the text of INFO is left open), and a value that is no request gives some
  -- error and leaves the map; and the arena models the map at the end of the dialogue and is again such a one.
  -- After that an incomplete value stays pending, malformed bytes are cleared and answered with an error, and an
  -- array for which there is no memory ends the process.
  pub serve_chunk-Dialogue :
      (can_reserve : ℕ → Bool) (clocks : ℕ → Clocks) (s : Served) (chunk : Bytes) (m : AbstractMap)
      (vs : List RespValue) (e : Ending)
      → Reading text can_reserve (s.pending ++ chunk) vs e
      → AllRequestsUsed vs
      → Holds Uses s.arena m
      → (b : Arena) × (out : Bytes) × (m' : AbstractMap) × Dialogue text clocks vs m out m'
        × Holds Uses b m'
        × (serve_chunk text can_reserve clocks s chunk
            ≡ ended_with text can_reserve b (s.written ++ out) e)
  serve_chunk-Dialogue can_reserve clocks s chunk m vs e reading used h =
      let (m', dialogue, holds) = dispatch_all-Dialogue vs clocks s.arena m used h in
      (_, _, m', dialogue, holds, serve_chunk-ended_with text can_reserve clocks s chunk reading)
