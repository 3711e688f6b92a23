-- ===== src/CInterface/Cycle.antt =====
-- src/lib.rs: what the C functions answer about a key after it was set or deleted through them.
use memlane.Arena.{Arena}
use memlane.CInterface.{ml_set, ml_get, ml_del, ml_exists, copy_out, one_if_ok, one_if_true}
use memlane.Client
use memlane.Client.Calls.{
  GetStep, get_key_too_long, get_answers, ExistsStep, exists_key_too_long, exists_answers, SetStep,
  set_key_too_long, set_value_too_long, set_full, set_updates, set_replaces, set_inserts, DelStep,
  del_key_too_long, del_answers, live_value, is_some,
}
use memlane.Client.Simple.{get-GetStep, exists-ExistsStep, set-SetStep, del-DelStep}
use memlane.Client.{MemLaneError}
use memlane.Hashmap.Alone.{Separates}
use memlane.Hashmap.Invariant.{Entry, AbstractMap, assign}
use memlane.Hashmap.Run.{Holds}
use memlane.Hashmap.Spec.{is_dead}
use memlane.Hashmap.Steps.{IsFull}
use memlane.Hashmap.{Clock}
use memlane.Prelude.{
  ℕ, ◌≤◌, ◌≡◌, refl, ap, ◌⊎◌, inl, inr, Bool, true, false, Bool-cases, Option, none, some, ◌++◌,
  Bytes, length, take, drop, min, Result, ok, ℤ, pos, negsuc, bytes_eq_refl, if◌then◌else◌, arith,
}
use memlane.Slot.{max_key_len, max_val_len}
use memlane.Ttl.{ttl_to_expiry}

assign_same : (m : AbstractMap) (key : Bytes) (e : Option Entry) → assign m key e key ≡ e
assign_same m key e = rw (bytes_eq_refl key) refl

after_set :
    {m : AbstractMap} {clock : Clock} {key value : Bytes} {ttl_secs : ℕ}
    {r : Result MemLaneError Bool} {m' : AbstractMap}
    → length key ≤ max_key_len
    → length value ≤ max_val_len
    → SetStep m clock key value ttl_secs r m'
    → ((one_if_ok r ≡ 0) × IsFull m)
      ⊎ ((one_if_ok r ≡ 1) × (m' key ≡ some (value, ttl_to_expiry (clock 0) ttl_secs)))
after_set short fits (set_key_too_long long) = absurd (omega arith)
after_set short fits (set_value_too_long short' long) = absurd (omega arith)
after_set short fits (set_full short' fits' e all) = inl (refl, all)
after_set {m} {key = key} short fits (set_updates short' fits' i e alive) =
    inr (refl, assign_same m key _)
after_set {m} {key = key} short fits (set_replaces short' fits' i e dead) =
    inr (refl, assign_same m key _)
after_set {m} {key = key} short fits (set_inserts short' fits' e) = inr (refl, assign_same m key _)

-- What `ml_get` leaves in the buffer and returns of an entry, at a reading of the clock.
abbrev pub copied : ℕ → Entry → Bytes → Bytes × ℤ
copied now e out =
    let n = min (length e.0) (length out) in
    if is_dead now e then (out, negsuc 0) else (take n e.0 ++ drop n out, pos n)

after_get :
    {m : AbstractMap} {clock : Clock} {key : Bytes} {r : Result MemLaneError (Option Bytes)}
    {m' : AbstractMap} (e : Entry) (out : Bytes)
    → length key ≤ max_key_len
    → m key ≡ some e
    → GetStep m clock key r m'
    → (i : ℕ) × (copy_out r out ≡ copied (clock i) e out)
unfolding live_value
after_get e out short has (get_key_too_long long) = absurd (omega arith)
after_get {clock = clock} e out short has (get_answers short' i) =
    (i, rw (has, live_value) (shown (Bool-cases (is_dead (clock i) e))))
  where
    shown :
        (is_dead (clock i) e ≡ true) ⊎ (is_dead (clock i) e ≡ false)
        → copy_out (ok (if is_dead (clock i) e then none else some e.0)) out
          ≡ copied (clock i) e out
    shown (inl dead) = rw dead refl
    shown (inr alive) = rw alive refl

after_del :
    {m : AbstractMap} {key : Bytes} {r : Result MemLaneError Bool} {m' : AbstractMap}
    → length key ≤ max_key_len
    → DelStep m key r m'
    → (one_if_true r ≡ (if is_some (m key) then 1 else 0)) × (m' key ≡ none)
after_del short (del_key_too_long long) = absurd (omega arith)
after_del {m} {key} short (del_answers short') = (was_there (m key), assign_same m key none)
  where
    was_there : (e : Option Entry) → one_if_true (ok (is_some e)) ≡ (if is_some e then 1 else 0)
    was_there none = refl
    was_there (some e) = refl

no_get :
    {m : AbstractMap} {clock : Clock} {key : Bytes} {r : Result MemLaneError (Option Bytes)}
    {m' : AbstractMap} (out : Bytes)
    → length key ≤ max_key_len
    → m key ≡ none
    → GetStep m clock key r m'
    → copy_out r out ≡ (out, negsuc 0)
unfolding live_value
no_get out short has (get_key_too_long long) = absurd (omega arith)
no_get out short has (get_answers short' i) = rw (has, live_value) refl

no_exists :
    {m : AbstractMap} {clock : Clock} {key : Bytes} {r : Result MemLaneError Bool}
    {m' : AbstractMap}
    → length key ≤ max_key_len
    → m key ≡ none
    → ExistsStep m clock key r m'
    → one_if_true r ≡ 0
unfolding live_value
no_exists short has (exists_key_too_long long) = absurd (omega arith)
no_exists short has (exists_answers short' i) = rw (has, live_value) refl

module _ {Uses : Bytes → Type 0} (apart : Separates Uses) {a : Arena} {m : AbstractMap}
    (h : Holds Uses a m) where
  -- A round trip through the C functions, on a handle to a valid arena that models a map with keys among
  -- some that the hash tells apart, for such a key, a key and a value that fit a slot, and pointers that are
  -- not null: either `ml_set` returns 0, and the map has as many keys as there are slots; or it returns 1, and
  -- `ml_get` with that handle, at some reading of its clock, copies the value, cut to the buffer, and returns
  -- how many bytes that is, or -1 with the buffer unchanged when the time to live has run out.
  pub ml_get-ml_set :
      (set_clock get_clock : Clock) (key value out : Bytes) (ttl_secs : ℕ)
      → Uses key
      → length key ≤ max_key_len
      → length value ≤ max_val_len
      → (let (handle, code) = ml_set set_clock (some a) (some key) (some value) ttl_secs in
          ((code ≡ 0) × IsFull m)
          ⊎ ((code ≡ 1)
              × (b : Arena) × (i : ℕ) × (ml_get get_clock handle (some key) (some out) ≡ (
                  let (left, n) =
                    copied (get_clock i) (value, ttl_to_expiry (set_clock 0) ttl_secs) out in
                  (some b, some left, n)))))
  unfolding ml_set ml_get
  ml_get-ml_set set_clock get_clock key value out ttl_secs mine short fits =
      let k = set-SetStep apart h set_clock key value ttl_secs mine in
      elim (after_set short fits k.step) [
        | inl no_room ↦ inl no_room
        | inr (done, has) ↦
            let run = Client.set set_clock a key value ttl_secs in
            let g = get-GetStep apart k.holds get_clock key mine in
            let (i, same) =
              after_get (value, ttl_to_expiry (set_clock 0) ttl_secs) out short has g.step in
            inr (
              done,
              (Client.get get_clock run.0 key).0,
              i,
              ap (λ c. (some (Client.get get_clock run.0 key).0, some c.0, c.1)) same,
            )
      ]

  -- On such a handle, and for such a key: `ml_del` returns 1 where the key had an entry and else 0, and with
  -- the handle that it leaves `ml_exists` returns 0, and `ml_get` -1 with the buffer unchanged.
  pub ml_get-ml_del :
      (exists_clock get_clock : Clock) (key out : Bytes)
      → Uses key
      → length key ≤ max_key_len
      → (let (handle, code) = ml_del (some a) (some key) in
          (code ≡ (if is_some (m key) then 1 else 0))
          × ((ml_exists exists_clock handle (some key)).1 ≡ 0)
          × (b : Arena) × (ml_get get_clock handle (some key) (some out)
              ≡ (some b, some out, negsuc 0)))
  unfolding ml_del ml_exists ml_get
  ml_get-ml_del exists_clock get_clock key out mine short =
      let k = del-DelStep apart h key mine in
      let (code, gone) = after_del short k.step in
      let b = (Client.del a key).0 in
      let g = get-GetStep apart k.holds get_clock key mine in
      let x = exists-ExistsStep apart k.holds exists_clock key mine in
      (
        code,
        no_exists short gone x.step,
        (Client.get get_clock b key).0,
        ap (λ c. (some (Client.get get_clock b key).0, some c.0, c.1))
            (no_get out short gone g.step),
      )
