-- ===== src/Server/Loop.antt =====
-- The loop of `handle_client` in src/server/mod.rs: it ends, it leaves no complete command behind, and
-- it answers pipelined commands in their order.
use memlane.Arena.{Arena}
use memlane.Client.{Clocks}
use memlane.Prelude.{
  ℕ, zero, suc, ◌<◌, ◌≡◌, refl, ◌⊎◌, inl, inr, Bool, true, [], Bytes, length, length-drop, drop,
  arith,
}
use memlane.Resp.Command.{TextOps}
use memlane.Resp.Fuel.{Takes, took, wants, refused, crashed, parse-Takes}
use memlane.Resp.{RespValue, Parsed, value, more, protocol, crash, out_of_fuel, parse, encode}
use memlane.Server.Connection.{Served, serve_loop}

pub parse_nil : (can_reserve : ℕ → Bool) → parse can_reserve [] ≡ more
unfolding parse memlane.Resp.parse_with
parse_nil can_reserve = refl

module _ (text : TextOps) (can_reserve : ℕ → Bool) where
  -- All that is left of the buffer is an incomplete command, or the process has crashed.
  abbrev pub IsDrained : Served → Type 0
  IsDrained s = (parse can_reserve s.pending ≡ more) ⊎ (s.crashed ≡ true)

  abbrev Serves : (ℕ → Clocks) → Arena → Bytes → Bytes → ℕ → ℕ → Type 0
  Serves clocks a pending written f g =
      (serve_loop text can_reserve f clocks a pending written
        ≡ serve_loop text can_reserve g clocks a pending written)
      × IsDrained (serve_loop text can_reserve f clocks a pending written)

  round-Serves :
      (f g : ℕ) (clocks : ℕ → Clocks) (a : Arena) (pending written : Bytes) (r : Parsed RespValue)
      → parse can_reserve pending ≡ r
      → Takes 3 (length pending) r
      → ((clocks' : ℕ → Clocks) (a' : Arena) (rest written' : Bytes)
          → length rest < length pending
          → Serves clocks' a' rest written' f g)
      → Serves clocks a pending written (suc f) (suc g)
  unfolding serve_loop
  round-Serves f g clocks a pending written (value v n) e (took lo hi) rest =
      rw (e, serve_loop) (rest _ _ (drop n pending) _ (omega (arith, length-drop n pending)))
  round-Serves f g clocks a pending written more e wants rest = rw (e, serve_loop) (refl, inl e)
  round-Serves f g clocks a pending written (protocol m) e refused rest =
      rw (e, serve_loop) (refl, inl (parse_nil can_reserve))
  round-Serves f g clocks a pending written crash e crashed rest =
      rw (e, serve_loop) (refl, inr refl)
  round-Serves f g clocks a pending written out_of_fuel e t rest = elim t [ ]

  serve_loop-Serves :
      (f g : ℕ) (clocks : ℕ → Clocks) (a : Arena) (pending written : Bytes)
      → length pending < f
      → length pending < g
      → Serves clocks a pending written f g
  serve_loop-Serves zero g clocks a pending written hf hg = absurd (omega arith)
  serve_loop-Serves (suc f) zero clocks a pending written hf hg = absurd (omega arith)
  serve_loop-Serves (suc f) (suc g) clocks a pending written hf hg =
      round-Serves f g clocks a pending written (parse can_reserve pending) refl
        (parse-Takes can_reserve pending)
        λ clocks' a' rest written' shorter.
          serve_loop-Serves f g clocks' a' rest written' (omega arith) (omega arith)

  -- With more fuel than there are bytes, the loop of a connection gives the same whatever the fuel, and
  -- either leaves only an incomplete command of the buffer or the process has crashed.
  pub serve_loop-IsDrained :
      (f g : ℕ) (clocks : ℕ → Clocks) (a : Arena) (pending written : Bytes)
      → length pending < f
      → length pending < g
      → (serve_loop text can_reserve f clocks a pending written
          ≡ serve_loop text can_reserve g clocks a pending written)
        × IsDrained (serve_loop text can_reserve f clocks a pending written)
  serve_loop-IsDrained = serve_loop-Serves
