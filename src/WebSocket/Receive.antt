-- ===== src/WebSocket/Receive.antt =====
-- What the WebSocket server reads and writes.
use gitee_fork_gateway.Prelude.{
  ℕ, zero, suc, ◌+◌, ◌≤◌, ◌<◌, ◌≡◌, refl, sym, ap, ◌∙◌, ◌⊎◌, inl, inr, Bool, true, false, Option,
  none, some, List, [], ◌∷◌, ◌++◌, String, length, take, take_all, drop, set, ltb, if◌then◌else◌,
  ◌>>=◌, arith, append-nil,
}
use native.Mathlib.Decide.{dec_lt}
use gitee_fork_gateway.NetConMap.{NetConMap, Value, conn, table}
use gitee_fork_gateway.NetConMap
use gitee_fork_gateway.Bytes.{prefix}
use gitee_fork_gateway.Bytes.Copy.{copy_loop_lem, copy_loop-none}
use gitee_fork_gateway.Entities.{Store, DataWrapper, slice, put_slice, release}
use gitee_fork_gateway.WebSocket.{
  Sockets, wread, wwrite, in_time, visit_socket, send_round, write_round,
}
use gitee_fork_gateway.WebSocket.Register.{holder}

-- A byte set behind a prefix.
set_behind :
    (bytes tmp : List ℕ) (v : ℕ)
    → take (length tmp) bytes ≡ tmp
    → length tmp < length bytes
    → set bytes (length tmp) v ≡ tmp ++ (v ∷ drop (length tmp + 1) bytes)
set_behind [] tmp v e h = absurd (omega arith)
set_behind (x ∷ bytes) [] v e h = ground arith
set_behind (x ∷ bytes) (y ∷ tmp) v e h =
    let ih = set_behind bytes tmp v (ground arith) (omega arith) in ground arith

drop_one : (n : ℕ) (xs : List ℕ) → drop (n + 1) xs ≡ drop 1 (drop n xs)
drop_one zero xs = ground arith
drop_one (suc n) [] = ground arith
drop_one (suc n) (x ∷ xs) = ground (arith, drop_one n xs)

drop_more : (n : ℕ) (xs ys : List ℕ) → drop n xs ≡ drop n ys → drop (n + 1) xs ≡ drop (n + 1) ys
drop_more n xs ys e = drop_one n xs ∙ ap (drop 1) e ∙ sym (drop_one n ys)

-- `wread` panics on a message that is as long as the entity's slice or longer. A shorter one is
-- written to the front of the slice, with a zero behind it, and the rest of the slice stays.
pub wread_lem :
    (s : Store) (entity : ℕ) (tmp bytes : List ℕ) (size : ℕ)
    → slice s entity ≡ some (bytes, size)
    → ((length tmp < length bytes)
        × (wread s entity (some tmp) ≡ (
            put_slice s entity (tmp ++ (0 ∷ drop (length tmp + 1) bytes)) >>= λ s'.
            some (some (length tmp), s'))))
      ⊎ ((length bytes ≤ length tmp) × (wread s entity (some tmp) ≡ none))
unfolding wread
wread_lem s entity tmp bytes size e = elim (dec_lt (length tmp) (length bytes)) [
  | yes p ↦
      (let (r, er, l, t, d) = copy_loop_lem (length tmp) tmp bytes (omega arith) (omega arith) in
        let b : ltb (length tmp) (length r) ≡ true = ground arith in
        let f : take (length tmp) r ≡ tmp = t ∙ take_all tmp in
        let g : drop (length tmp + 1) r ≡ drop (length tmp + 1) bytes =
          drop_more (length tmp) r bytes d in
        let x = set_behind r tmp 0 f (omega arith) in inl (p, (rw (e, er, b, x, g) refl)))
  | no p ↦ elim (dec_lt (length bytes) (length tmp)) [
    | yes q ↦
        (let c =
            copy_loop-none (length tmp) 0 tmp bytes (omega arith) (omega arith) (omega arith) in
          inr (omega arith, (rw (e, c) refl)))
    | no q ↦
        (let (r, er, l, t, d) = copy_loop_lem (length tmp) tmp bytes (omega arith) (omega arith) in
          let b : ltb (length tmp) (length r) ≡ false = ground arith in
          inr (omega arith, (rw (e, er, b) refl)))
  ]
]

-- What is sent to the connection of an entry.
abbrev pub to_holder : Bool → List ℕ → Option (Value ℕ) → List (ℕ × List ℕ)
to_holder timely text none = []
to_holder timely text (some (table mp)) = []
to_holder timely text (some (conn ws)) = if timely then (ws, text) ∷ [] else []

module _ (time_out_sec now : ℕ) (w : Sockets) (d : DataWrapper) (src : List ℕ) (size : ℕ)
    (single : w.map.allow_dup ≡ false) (loaded : slice w.entities d.data_store ≡ some (src, size))
    (fits : d.data_length ≤ length src) where
  abbrev after : Option (Value ℕ) → Sockets
  after found = record w {
    sent = w.sent ++ to_holder (in_time time_out_sec now d) (take d.data_length src) found;
  }

  visit_socket_lem :
      (key : String) (ws : ℕ)
      → (visit_socket time_out_sec now d key (conn ws) (some w)).0 ≡ some (after (some (conn ws)))
  unfolding visit_socket wwrite prefix
  visit_socket_lem key ws = ground (arith, append-nil w.sent)

  send_round_found :
      (found : Option (Value ℕ))
      → holder w d.target_con_serial ≡ found
      → send_round time_out_sec now w d ≡ some (after found)
  unfolding send_round NetConMap.range NetConMap.load visit_socket
  send_round_found none e = ground (arith, append-nil w.sent)
  send_round_found (some (table mp)) e = ground (arith, append-nil w.sent)
  send_round_found (some (conn ws)) e =
      ground (arith, visit_socket_lem d.target_con_serial ws, visit_socket_lem d.self_id ws)

-- One round of the writer. On a server that gives a serial one connection, a wrapper that is not late
-- is sent, once, to the connection of its serial, whatever its `SelfId`, and to nobody else; in any
-- case its entity is released once, and no entry or connection changes.
pub write_round_lem :
    (time_out_sec now : ℕ) (w : Sockets) (d : DataWrapper) (src : List ℕ) (size : ℕ) (s' : Store)
    → w.map.allow_dup ≡ false
    → slice w.entities d.data_store ≡ some (src, size)
    → d.data_length ≤ length src
    → release w.entities d.data_store ≡ some s'
    → write_round time_out_sec now w d
      ≡ some (record w {
        entities = s';
        sent =
            w.sent
            ++ to_holder
                (in_time time_out_sec now d)
                (take d.data_length src)
                (holder w d.target_con_serial);
      })
unfolding write_round
write_round_lem time_out_sec now w d src size s' single loaded fits rel =
    let e =
      send_round_found time_out_sec now w d src size single loaded fits
        (holder w d.target_con_serial) refl in
    rw (e, rel) refl
