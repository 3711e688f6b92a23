-- ===== src/Tests/Calls.antt =====
-- Tests of the C functions, the dispatcher and the task of a dashboard.
use memlane.Arena.{Arena}
use memlane.CInterface.Cycle.{copied, ml_get-ml_set, ml_get-ml_del}
use memlane.CInterface.{ml_set, ml_get, ml_del, ml_exists}
use memlane.Client
use memlane.Hashmap.Steps.{IsFull}
use memlane.Metrics.Dashboard.{
  WsEvent, snapshot, lagged, feed_closed, ping, other, handle_ws_client, texts, pongs, at_end,
  with_snapshot, with_ping, with_lag, feed_end, handle_ws_client-Weaves,
}
use memlane.Prelude.{
  ℕ, ◌≡◌, ◌⊎◌, refl, inl, inr, true, some, codes, bytes_eq, List, [], ◌∷◌, ◌++◌, negsuc, arith,
}
use memlane.Resp.Command.{ok_reply}
use memlane.Server.Dispatch.{set_request, dispatch_command-set_options}
use memlane.Server.{dispatch_command, reply}
use memlane.Tests.Methods.{ascii, each_noon, room}
use memlane.Tests.Samples.{midnight, noon, mq, nt, one, one_entry, Sample-Separates, one-Holds}
use memlane.Text.{to_string}
use memlane.Ttl.{ttl_to_expiry}

ml_get-ml_set_example :
    let (handle, code) = ml_set noon (some one) (some nt) (some (codes "8")) 3 in
    ((code ≡ 0) × IsFull one_entry)
    ⊎ ((code ≡ 1)
        × (b : Arena) × (i : ℕ) × (ml_get midnight handle (some nt) (some room) ≡ (
            let (left, n) = copied (midnight i) (codes "8", ttl_to_expiry (noon 0) 3) room in
            (some b, some left, n))))
ml_get-ml_set_example =
    ml_get-ml_set Sample-Separates one-Holds noon midnight nt (codes "8") room 3 (inr refl)
      (omega arith) (omega arith)

ml_get-ml_del_example :
    let (handle, code) = ml_del (some one) (some mq) in
    (code ≡ 1)
    × ((ml_exists noon handle (some mq)).1 ≡ 0)
    × (b : Arena) × (ml_get noon handle (some mq) (some room) ≡ (some b, some room, negsuc 0))
unfolding bytes_eq
ml_get-ml_del_example =
    ml_get-ml_del Sample-Separates one-Holds noon noon mq room (inl refl) (omega arith)

dispatch_command-set_options_example :
    (dispatch_command ascii each_noon one
        (set_request (codes "sEt") mq (codes "8") (codes "ex") (to_string 60))
      ≡ reply (Client.set noon one mq (codes "8") 60) (λ _. ok_reply))
    × (dispatch_command ascii each_noon one
          (set_request (codes "sEt") mq (codes "8") (codes "Px") (to_string 1500))
        ≡ reply (Client.set noon one mq (codes "8") 2) (λ _. ok_reply))
dispatch_command-set_options_example =
    dispatch_command-set_options ascii each_noon one mq (codes "8") 60 1500
      (record { ascii = (omega arith, (omega arith, (omega arith, tt))); upper = refl })
      (record { ascii = (omega arith, (omega arith, tt)); upper = refl })
      (record { ascii = (omega arith, (omega arith, tt)); upper = refl }) (omega arith)
      (omega arith)

abbrev afternoon : List WsEvent
afternoon =
    snapshot (codes "{}") true ∷ ping (codes "a") ∷ lagged 3 ∷ snapshot (codes "{1}") true ∷ []

handle_ws_client-Weaves_example :
    let sent = handle_ws_client true (codes "hi") (afternoon ++ feed_closed ∷ other ∷ []) in
    (texts sent ≡ codes "hi" ∷ codes "{}" ∷ codes "{1}" ∷ []) × (pongs sent ≡ codes "a" ∷ [])
handle_ws_client-Weaves_example =
    handle_ws_client-Weaves (codes "hi") (other ∷ [])
      (with_snapshot (with_ping (with_lag (with_snapshot at_end)))) feed_end
