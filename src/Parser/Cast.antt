-- ===== src/Parser/Cast.antt =====
-- What the WebSocket server's parser casts.
use gitee_fork_gateway.Prelude.{ℕ, ◌≤◌, ◌≡◌, refl, false, some, List, length, take, drop}
use gitee_fork_gateway.Bytes.Copy.{copy_loop_lem}
use gitee_fork_gateway.Parser.{Parsed, web_socket_parse}

-- The WebSocket parser does not panic on a message that fits both slices; it casts the whole message,
-- byte for byte, and leaves the rest of the slice that it casts and the message as they were.
pub web_socket_parse_lem :
    (bytes cbytes : List ℕ) (src_len : ℕ)
    → src_len ≤ length bytes
    → src_len ≤ length cbytes
    → (p : Parsed) × (web_socket_parse bytes cbytes src_len ≡ some p)
      × (p.ca_size ≡ src_len)
      × (p.bytes ≡ bytes)
      × (take src_len p.tbyte ≡ take src_len bytes)
      × (drop src_len p.tbyte ≡ drop src_len cbytes)
unfolding web_socket_parse
web_socket_parse_lem bytes cbytes src_len h h' =
    let (r, e, l, t, d) = copy_loop_lem src_len bytes cbytes h h' in
    let p : Parsed = record {
      ca_size = src_len;
      beat = false;
      bytes = bytes;
      tbyte = r;
      src_len = src_len;
    } in
    (p, (rw e refl), refl, refl, t, d)
