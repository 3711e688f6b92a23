-- ===== src/Metrics/Dashboard.antt =====
-- src/server/ws_bridge.rs: the task of one dashboard, `handle_ws_client`. What its two sources bring is a
-- list, in the order in which `select!` hands it over; the result is what the task sends.
use memlane.Arena.{Arena}
use memlane.Client
use memlane.Metrics.{Floats}
use memlane.Prelude.{ℕ, ◌≡◌, refl, ap, Bool, true, false, List, [], ◌∷◌, ◌++◌, Bytes}

pub data WsEvent : Type 0 where
  -- a snapshot of the broadcast channel, and whether sending it succeeds
  snapshot : (json : Bytes) (sent : Bool) → WsEvent
  lagged : (missed : ℕ) → WsEvent
  feed_closed : WsEvent
  -- a close frame, or the end of the stream
  closed : WsEvent
  ping : Bytes → WsEvent
  -- another frame, or an error
  other : WsEvent

pub data Message : Type 0 where
  text_frame : Bytes → Message
  pong_frame : Bytes → Message

unfoldable pub ws_loop : List WsEvent → List Message
ws_loop [] = []
ws_loop (snapshot json true ∷ events) = text_frame json ∷ ws_loop events
ws_loop (snapshot json false ∷ events) = text_frame json ∷ []
ws_loop (lagged missed ∷ events) = ws_loop events
ws_loop (feed_closed ∷ events) = []
ws_loop (closed ∷ events) = []
ws_loop (ping payload ∷ events) = pong_frame payload ∷ ws_loop events
ws_loop (other ∷ events) = ws_loop events

-- `accepted` is whether the handshake succeeds, `welcome` the text of the first message.
unfoldable pub handle_ws_client : Bool → Bytes → List WsEvent → List Message
handle_ws_client accepted welcome events = elim accepted [
  | true ↦ text_frame welcome ∷ ws_loop events
  | false ↦ []
]

-- `slots_fn` of `start_all`: what each tick reads of the arena.
unfoldable pub slots_fn : Arena → ℕ × ℕ
slots_fn a = (Client.used_count a, Client.capacity a)

-- `fill_ratio` of src/client.rs, here for its floats.
unfoldable pub fill_ratio : (fl : Floats) → Arena → fl.F
fill_ratio fl a = fl.div (fl.of_int (Client.used_count a)) (fl.of_int (Client.capacity a))

abbrev pub texts : List Message → List Bytes
texts [] = []
texts (text_frame b ∷ messages) = b ∷ texts messages
texts (pong_frame b ∷ messages) = texts messages

abbrev pub pongs : List Message → List Bytes
pongs [] = []
pongs (text_frame b ∷ messages) = pongs messages
pongs (pong_frame b ∷ messages) = b ∷ pongs messages

-- The events bring these snapshots and these pings, in some order among each other, and no end.
pub data Weaves : List Bytes → List Bytes → List WsEvent → Type 0 where
  at_end : Weaves [] [] []
  with_snapshot :
      {jsons pings : List Bytes} {events : List WsEvent} {json : Bytes}
      → Weaves jsons pings events
      → Weaves (json ∷ jsons) pings (snapshot json true ∷ events)
  with_ping :
      {jsons pings : List Bytes} {events : List WsEvent} {bytes : Bytes}
      → Weaves jsons pings events
      → Weaves jsons (bytes ∷ pings) (ping bytes ∷ events)
  with_lag :
      {jsons pings : List Bytes} {events : List WsEvent} {missed : ℕ}
      → Weaves jsons pings events
      → Weaves jsons pings (lagged missed ∷ events)
  with_other :
      {jsons pings : List Bytes} {events : List WsEvent}
      → Weaves jsons pings events
      → Weaves jsons pings (other ∷ events)

-- The channel or the dashboard is gone.
pub data IsEnd : WsEvent → Type 0 where
  feed_end : IsEnd feed_closed
  client_end : IsEnd closed

woven :
    {jsons pings : List Bytes} {events : List WsEvent} {end : WsEvent} (later : List WsEvent)
    → Weaves jsons pings events
    → IsEnd end
    → (texts (ws_loop (events ++ end ∷ later)) ≡ jsons)
      × (pongs (ws_loop (events ++ end ∷ later)) ≡ pings)
unfolding ws_loop
woven later at_end feed_end = (refl, refl)
woven later at_end client_end = (refl, refl)
woven later (with_snapshot {json = json} w) e =
    let (t, p) = woven later w e in (ap (λ l. json ∷ l) t, p)
woven later (with_ping {bytes = bytes} w) e =
    let (t, p) = woven later w e in (t, ap (λ l. bytes ∷ l) p)
woven later (with_lag w) e = woven later w e
woven later (with_other w) e = woven later w e

-- A dashboard whose handshake succeeds is sent the welcome and then every snapshot that the channel hands
-- over, in their order, and an answer to every ping, in theirs, however the two are woven, and nothing
-- once the channel or the dashboard is gone; while the sends succeed.
pub handle_ws_client-Weaves :
    {jsons pings : List Bytes} {events : List WsEvent} {end : WsEvent} (welcome : Bytes)
    (later : List WsEvent)
    → Weaves jsons pings events
    → IsEnd end
    → (let sent = handle_ws_client true welcome (events ++ end ∷ later) in
        (texts sent ≡ welcome ∷ jsons) × (pongs sent ≡ pings))
unfolding handle_ws_client
handle_ws_client-Weaves welcome later w e =
    let (t, p) = woven later w e in (ap (λ l. welcome ∷ l) t, p)
