-- ===== src/Dispatch/Tests.antt =====
-- Three servers, of which two share a queue's kind.
use gitee_fork_gateway.Prelude.{ℕ, ◌≡◌, refl, true, false, none, some, [], ◌∷◌}
use gitee_fork_gateway.SyncMap.{SyncMap}
use gitee_fork_gateway.SyncMap
use gitee_fork_gateway.Dispatch.{channel, Server, broad_cast_data, web_update, update_for}

abbrev gateway : Server ℕ
gateway = record { serial = "GATEWAY"; serial_is_activity = λ s. true; inbox = channel 2 [] }

abbrev app : Server ℕ
app = record { serial = "APP"; serial_is_activity = λ s. false; inbox = channel 2 (4 ∷ []) }

abbrev websocket : Server ℕ
websocket = record {
  serial = "WEBSOCKET";
  serial_is_activity = λ s. true;
  inbox = channel 1 (4 ∷ []);
}

-- The data goes to each server's channel, and nil is left out.
sent :
    broad_cast_data 1 (λ f. f) 0 (some gateway ∷ none ∷ some app ∷ []) "TTG1" 9
    ≡ some (
        some (record gateway { inbox = channel 2 (9 ∷ []) })
        ∷ none
        ∷ some (record app { inbox = channel 2 (4 ∷ 9 ∷ []) })
        ∷ [])
unfolding broad_cast_data
sent = refl

-- A full channel blocks the broadcast.
blocked : broad_cast_data 1 (λ f. f) 0 (some gateway ∷ some websocket ∷ []) "TTG1" 9 ≡ none
unfolding broad_cast_data
blocked = refl

web_only : update_for (("APP", false) ∷ ("WEBSOCKET", true) ∷ []) ≡ web_update
unfolding update_for SyncMap.load
web_only = refl
