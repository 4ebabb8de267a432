-- ===== src/Ack/Connect/Tests.antt =====
-- The greeting of a device, in the clear and encrypted.
use gitee_fork_gateway.Prelude.{
  ℕ, ◌≡◌, refl, true, false, Bool, Option, none, some, List, [], ◌∷◌, replicate,
}
use gitee_fork_gateway.Bytes.{copy_loop, prefix}
use gitee_fork_gateway.Brick.{store_mem}
use gitee_fork_gateway.Codec
use gitee_fork_gateway.Codec.{mix_four}
use gitee_fork_gateway.Codec.Base64.{base64_encode}
use gitee_fork_gateway.Pool.{
  empty_pool, bytes, find_brick, get_entity, write_brick, put_brick, full_release,
}
use gitee_fork_gateway.Entities.{Store, slice, put_slice, acquire, free}
use gitee_fork_gateway.Crypt.{crypt_entity}
use gitee_fork_gateway.Ack.Connect.{web_accept_text, ack_connect}

-- A pool of one brick of 2 pieces of 20 bytes, whose first piece is the buffer.
abbrev store : Store
store = record {
  pool = record empty_pool {
    mem_brick_list =
        record {
          addr = 0;
          alloc_bytes = replicate 40 0;
          alloc_piece_index = false ∷ true ∷ [];
          each_size = 20;
        }
        ∷ [];
    next_addr = 1;
  };
  entities = record { index = 0; ack_times = 1; brick = 0 } ∷ [];
}

in_the_clear :
    ack_connect none (λ text. true) 100 100 store 0 ≡ some ((true, some web_accept_text), store)
unfolding ack_connect
in_the_clear = refl

-- What is sent, if the greeting went out.
abbrev sent : Option ((Bool × Option (List ℕ)) × Store) → Option (List ℕ)
sent none = none
sent (some ((ok, text), s)) = text

-- `V0VCX0FDQ0VQVCAg` with each group of four mixed.
encrypted :
    sent (ack_connect (some crypt_entity) (λ text. true) 100 100 store 0)
    ≡ some (67 ∷ 48 ∷ 86 ∷ 86 ∷ 68 ∷ 48 ∷ 88 ∷ 70 ∷ 81 ∷ 48 ∷ 81 ∷ 86 ∷ 103 ∷ 67 ∷ 86 ∷ 65 ∷ [])
unfolding ack_connect crypt_entity slice bytes find_brick copy_loop put_slice acquire get_entity
    write_brick put_brick store_mem empty_pool Codec.en_crypt base64_encode mix_four prefix free
    full_release
encrypted = refl
