-- ===== src/CInterface/Handles.antt =====
-- src/lib.rs: a program of one thread that calls the C functions through any number of handles, while no other thread or
-- process accesses the region: each call has returned before the next one begins, and nothing happens between. Calls that
-- run at once are not described here. A handle is the address of its box, which the allocator chooses among those
-- that are free. A call on an address that is not a handle is undefined, and no step.
use memlane.Arena.{Arena, Os, slot_count, init_region, create_arena, open_arena, arena_magic}
use memlane.CInterface.{Handle, ml_create, ml_open, ml_set, ml_get, ml_del, ml_exists, ml_flush}
use memlane.Client
use memlane.Client.Safe.{
  client_get-IsValid, client_set-IsValid, client_del-IsValid, client_exists-IsValid, flush-IsValid,
}
use memlane.Client.{create_client, open_client}
use memlane.Hashmap.Flush.{init_region-IsValid}
use memlane.Hashmap.Invariant.{IsValid}
use memlane.Hashmap.{Clock}
use memlane.Prelude.{
  ℕ, ◌<◌, ◌≡◌, refl, sym, ap, subst, ◌∙◌, ◌⊎◌, inl, inr, Bool, true, false, ◌==◌, Bool-cases,
  if◌then◌else◌, Option, none, some, Bytes, Result, ok, err, update,
}
use memlane.Slot.Buffers.{IsSized}

-- The region behind `SHM_NAME`, once it was created, and which addresses are handles.
pub record Caller : Type 0 where
  pub region : Option Arena
  pub handles : ℕ → Bool

-- A null pointer is `none`. The box is freed, and with it the mapping of the region, which stays for other handles.
unfoldable pub ml_close : Caller → Option ℕ → Caller
ml_close m none = m
ml_close m (some h) = record m { handles = update m.handles h false }

-- What `mmap` maps: the region, or fresh memory of its size where it was not there before.
abbrev pub Maps : Caller → Arena → Type 0
Maps m a =
    (m.region ≡ some a) ⊎ ((m.region ≡ none) × ((p : ℕ) → p < slot_count → IsSized (a.slots p)))

-- A whole call, of a program that alone accesses the region.
pub data CallStep (m : Caller) : Caller → Type 0 where
  creates :
      (os : Os) (h : ℕ) (mapped a : Arena)
      → m.handles h ≡ false
      → os.mmap ≡ some mapped
      → Maps m mapped
      → ml_create os ≡ some a
      → CallStep m (record { region = some a; handles = update m.handles h true })
  opens :
      (os : Os) (h : ℕ) (mapped a : Arena)
      → m.handles h ≡ false
      → os.mmap ≡ some mapped
      → m.region ≡ some mapped
      → ml_open os ≡ some a
      → CallStep m (record { region = some a; handles = update m.handles h true })
  sets :
      (h : ℕ) (clock : Clock) (key val : Option Bytes) (ttl_secs : ℕ)
      → m.handles h ≡ true
      → CallStep m (record m { region = (ml_set clock m.region key val ttl_secs).0 })
  gets :
      (h : ℕ) (clock : Clock) (key out : Option Bytes)
      → m.handles h ≡ true
      → CallStep m (record m { region = (ml_get clock m.region key out).0 })
  dels :
      (h : ℕ) (key : Option Bytes)
      → m.handles h ≡ true
      → CallStep m (record m { region = (ml_del m.region key).0 })
  checks :
      (h : ℕ) (clock : Clock) (key : Option Bytes)
      → m.handles h ≡ true
      → CallStep m (record m { region = (ml_exists clock m.region key).0 })
  flushes : (h : ℕ) → m.handles h ≡ true → CallStep m (record m { region = (ml_flush m.region).0 })
  closes : (h : ℕ) → m.handles h ≡ true → CallStep m (ml_close m (some h))

pub data CallReach (m : Caller) : Caller → Type 0 where
  calls_start : CallReach m m
  calls_step : {n o : Caller} → CallReach m n → CallStep n o → CallReach m o

-- The region, where there is one, is a valid arena.
abbrev IsValidRegion : Handle → Type 0
IsValidRegion none = Unit {0}
IsValidRegion (some a) = IsValid a

-- A handle is only there with a region.
abbrev IsMapped : Handle → Bool → Type 0
IsMapped none live = live ≡ false
IsMapped (some a) live = Unit {0}

pub record IsSound (m : Caller) : Type 0 where
  pub valid : IsValidRegion m.region
  pub mapped : (h : ℕ) → IsMapped m.region (m.handles h)

created :
    (opened : Result Bytes (Unit {0})) (sized : Bool) (mmap : Option Arena) (hex : ℕ → Bytes)
    (mapped a : Arena)
    → mmap ≡ some mapped
    → ml_create (record { shm_open = opened; ftruncate = sized; mmap = mmap; hex = hex }) ≡ some a
    → a ≡ init_region mapped
unfolding ml_create create_client create_arena
created (err e) sized mmap hex mapped a h c = absurd cc
created (ok t) false mmap hex mapped a h c = absurd cc
created (ok t) true none hex mapped a h c = absurd cc
created (ok t) true (some r) hex mapped a h c =
    let same : r ≡ mapped = cc in
    let result : init_region r ≡ a = cc in sym result ∙ ap init_region same

opened :
    (answer : Result Bytes (Unit {0})) (sized : Bool) (mmap : Option Arena) (hex : ℕ → Bytes)
    (mapped a : Arena)
    → mmap ≡ some mapped
    → ml_open (record { shm_open = answer; ftruncate = sized; mmap = mmap; hex = hex }) ≡ some a
    → a ≡ mapped
unfolding ml_open open_client open_arena
opened (err e) sized mmap hex mapped a h c = absurd cc
opened (ok t) sized none hex mapped a h c = absurd cc
opened (ok t) sized (some r) hex mapped a h c = elim (Bool-cases (r.header.magic == arena_magic)) [
  | inl e ↦ let result : some r ≡ some a = rw e at c in cc
  | inr e ↦ let result : none ≡ some a = rw e at c in absurd cc
]

-- A call keeps the region valid and there.
abbrev Follows : Handle → Handle → Type 0
Follows r r' =
    (IsValidRegion r → IsValidRegion r') × ((live : Bool) → IsMapped r live → IsMapped r' live)

same-Follows : (r : Handle) → Follows r r
same-Follows r = (λ v. v, λ live m. m)

new-Follows : (a b : Arena) → (IsValid a → IsValid b) → Follows (some a) (some b)
new-Follows a b h = (h, λ live m. m)

ml_set-Follows :
    (clock : Clock) (r : Handle) (key val : Option Bytes) (ttl_secs : ℕ)
    → Follows r (ml_set clock r key val ttl_secs).0
unfolding ml_set
ml_set-Follows clock none key val ttl_secs = same-Follows none
ml_set-Follows clock (some a) none val ttl_secs = same-Follows (some a)
ml_set-Follows clock (some a) (some key) none ttl_secs = same-Follows (some a)
ml_set-Follows clock (some a) (some key) (some val) ttl_secs =
    new-Follows a (Client.set clock a key val ttl_secs).0
      (λ v. client_set-IsValid clock a key val ttl_secs v)

ml_get-Follows :
    (clock : Clock) (r : Handle) (key out : Option Bytes) → Follows r (ml_get clock r key out).0
unfolding ml_get
ml_get-Follows clock none key out = same-Follows none
ml_get-Follows clock (some a) none out = same-Follows (some a)
ml_get-Follows clock (some a) (some key) none = same-Follows (some a)
ml_get-Follows clock (some a) (some key) (some out) =
    new-Follows a (Client.get clock a key).0 (λ v. client_get-IsValid clock a key v)

ml_del-Follows : (r : Handle) (key : Option Bytes) → Follows r (ml_del r key).0
unfolding ml_del
ml_del-Follows none key = same-Follows none
ml_del-Follows (some a) none = same-Follows (some a)
ml_del-Follows (some a) (some key) =
    new-Follows a (Client.del a key).0 (λ v. client_del-IsValid a key v)

ml_exists-Follows :
    (clock : Clock) (r : Handle) (key : Option Bytes) → Follows r (ml_exists clock r key).0
unfolding ml_exists
ml_exists-Follows clock none key = same-Follows none
ml_exists-Follows clock (some a) none = same-Follows (some a)
ml_exists-Follows clock (some a) (some key) =
    new-Follows a (Client.exists clock a key).0 (λ v. client_exists-IsValid clock a key v)

ml_flush-Follows : (r : Handle) → Follows r (ml_flush r).0
unfolding ml_flush
ml_flush-Follows none = same-Follows none
ml_flush-Follows (some a) = new-Follows a (Client.flush a).0 (λ v. flush-IsValid a v)

IsSound-region :
    {m : Caller} (r : Handle) → Follows m.region r → IsSound m → IsSound (record m { region = r })
IsSound-region {m} r (valid, mapped) h = record {
  valid = valid h.valid;
  mapped = λ i. mapped (m.handles i) (h.mapped i);
}

-- The memory that `mmap` maps has buffers of the right sizes.
mapped_sizes :
    {m : Caller} {a : Arena} → IsSound m → Maps m a → (p : ℕ) → p < slot_count → IsSized (a.slots p)
mapped_sizes h (inr (none_there, sizes)) = sizes
mapped_sizes h (inl there) = let v = subst IsValidRegion there h.valid in λ p lt. v.sized p lt

CallStep-IsSound : {m n : Caller} → CallStep m n → IsSound m → IsSound n
unfolding ml_close
CallStep-IsSound (creates os h mapped a free e maps c) s =
    let made = created os.shm_open os.ftruncate os.mmap os.hex mapped a e c in
    record { valid = rw made (init_region-IsValid mapped (mapped_sizes s maps)); mapped = λ i. tt }
CallStep-IsSound (opens os h mapped a free e there c) s =
    let same = opened os.shm_open os.ftruncate os.mmap os.hex mapped a e c in
    record { valid = rw same (subst IsValidRegion there s.valid); mapped = λ i. tt }
CallStep-IsSound {m} (sets h clock key val ttl_secs live) s =
    IsSound-region _ (ml_set-Follows clock m.region key val ttl_secs) s
CallStep-IsSound {m} (gets h clock key out live) s =
    IsSound-region _ (ml_get-Follows clock m.region key out) s
CallStep-IsSound {m} (dels h key live) s = IsSound-region _ (ml_del-Follows m.region key) s
CallStep-IsSound {m} (checks h clock key live) s =
    IsSound-region _ (ml_exists-Follows clock m.region key) s
CallStep-IsSound {m} (flushes h live) s = IsSound-region _ (ml_flush-Follows m.region) s
CallStep-IsSound {m} (closes h live) s = record {
  valid = s.valid;
  mapped = λ i. freed m.region (m.handles i) (i == h) (s.mapped i);
}
  where
    freed :
        (r : Handle) (live here : Bool)
        → IsMapped r live
        → IsMapped r (if here then false else live)
    freed none live true e = refl
    freed none live false e = e
    freed (some a) live here e = tt

-- A program of one thread calls the C functions, each call after the one before it has returned, and nobody else
-- accesses the region meanwhile. However many handles it creates, opens and closes, and whatever it sets, gets, deletes
-- and flushes through them, with null pointers and keys and values of any length: from a state where the region, if it
-- is there, is a valid arena and every handle has one, only such states are reached.
pub CallReach-IsSound : {m n : Caller} → IsSound m → CallReach m n → IsSound n
CallReach-IsSound s calls_start = s
CallReach-IsSound s (calls_step r st) = CallStep-IsSound st (CallReach-IsSound s r)
