-- ===== src/Tcp/Write/Sealed.antt =====
-- `writeData`'s and `writeDatatoCon`'s write to a connection, on a server that encrypts.
use gitee_fork_gateway.Prelude.{
  ℕ, ◌+◌, ◌*◌, ◌/◌, ◌≤◌, ◌<◌, ◌≡◌, refl, sym, ap, ◌∙◌, true, not, some, List, ◌++◌, length, take,
  replicate, arith, length-take,
}
use gitee_fork_gateway.Bytes.{prefix}
use gitee_fork_gateway.Codec.Base64.{AllBytes}
use gitee_fork_gateway.Crypt.{crypt_entity, de_crypt}
use gitee_fork_gateway.Crypt.RoundTrip.{added}
use gitee_fork_gateway.Crypt.Cut.{en_crypt-Sealed}
use gitee_fork_gateway.Entities.{Store, DataWrapper}
use gitee_fork_gateway.Entities.Seen.{
  IsSound, seen, slice-seen, seen-length, put_slice-Put, free-Gone,
}
use gitee_fork_gateway.Entities.Fresh.{acquire-Fresh}
use gitee_fork_gateway.Tcp.Write.{Io, Writer, write_con, send_data}

prefix_of : (bytes : List ℕ) (n : ℕ) → n ≤ length bytes → prefix bytes n ≡ some (take n bytes)
unfolding prefix
prefix_of bytes n h = ground arith

-- The connection was handed a text that decrypts, in any slice `dst2` with room, to the message, with
-- spaces behind it up to a whole group of three bytes.
pub record SentSealed (w : Writer) (d : DataWrapper) (io : Io) (con : ℕ) (src dst2 : List ℕ)
    : Type 0 where
  pub text : List ℕ
  pub over : Store
  pub sent :
      send_data w io d con
      ≡ some (
        (w.accepts con text, not (w.accepts con text)),
        (write_con w (record io { store = over }) con text).1,
      )
  pub rest : List ℕ
  pub opened : List ℕ
  pub opens :
      de_crypt text dst2 (length text) (length dst2)
      ≡ some (true, 0, d.data_length + added d.data_length, rest, opened)
  pub same :
      take (d.data_length + added d.data_length) opened
      ≡ take d.data_length src ++ replicate (added d.data_length) 32
  pub sound : IsSound over

write_con_ok :
    (w : Writer) (io : Io) (con : ℕ) (text : List ℕ)
    → (write_con w io con text).0 ≡ w.accepts con text
unfolding write_con
write_con_ok w io con text = ground arith

added_le : (n : ℕ) → 0 < n → (n + added n) / 3 * 4 ≤ 4 * n
added_le n h = ground arith

module _ (w : Writer) (d : DataWrapper) (io : Io) (src dst2 : List ℕ) (size con : ℕ) where
  -- On a server that encrypts with the program's own codec, over a sound pool: a write of a wrapper whose
  -- text is not empty, and whose piece has room for the spaces up to a whole group of three, returns; what
  -- is handed to the connection decrypts, in any slice with that room, to the text with these spaces
  -- behind it, and nothing is left over; the pool is sound.
  pub send_data-SentSealed :
      w.crypt_inf ≡ some crypt_entity
      → IsSound io.store
      → seen io.store d.data_store ≡ some (src, size)
      → 0 < d.data_length
      → d.data_length + added d.data_length ≤ size
      → AllBytes (take d.data_length src)
      → d.data_length + added d.data_length ≤ length dst2
      → SentSealed w d io con src dst2
  unfolding send_data crypt_entity
  send_data-SentSealed crypt sound there pos room bytes room2 =
      let n = d.data_length in
      let ls = seen-length io.store d.data_store size src there in
      let (tmp, s1, e1, f) = acquire-Fresh io.store 1 (4 * n) w.now w.later sound in
      let (dst, k, t, big) = f.self in
      let ld = seen-length s1 tmp k dst t in
      let al = added_le n pos in
      let x =
        en_crypt-Sealed src dst dst2 n k bytes (omega (arith, ls)) (omega (arith, ld, al))
          (omega (arith, al)) room2 in
      let there1 = f.others d.data_store (src, size) there in
      let apart = f.apart d.data_store (src, size) there in
      let (s2, p2, put2) =
        put_slice-Put s1 d.data_store size src x.padded f.sound there1 (x.kept ∙ ls) in
      let tmp2 = put2.others tmp (dst, k) (λ q. apart (sym q)) t in
      let (s3, p3, put3) = put_slice-Put s2 tmp k dst x.sealed put2.sound tmp2 (x.size ∙ ld) in
      let (s4, p4, gone) = free-Gone s3 tmp (x.sealed, k) put3.sound put3.self in
      let cut = prefix_of x.sealed x.m (let fi = x.fits in let sz = x.size in omega arith) in
      let text = take x.m x.sealed in
      let lt : length text ≡ x.m =
        (let fi = x.fits in let sz = x.size in omega (arith, length-take x.m x.sealed)) in
      let ok = write_con_ok w (record io { store = s4 }) con text in
      record {
        text = text;
        over = s4;
        sent =
            (rw
              (
                crypt,
                slice-seen io.store d.data_store (src, size) there,
                e1,
                slice-seen s1 tmp (dst, k) t,
                x.seal,
                p2,
                p3,
                cut,
                p4,
                ok,
              )
              refl);
        rest = x.rest;
        opened = x.text;
        opens = ap (λ z. de_crypt text dst2 z (length dst2)) lt ∙ x.unseal;
        same = x.same;
        sound = gone.sound;
      }
