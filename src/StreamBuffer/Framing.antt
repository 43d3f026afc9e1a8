-- ===== src/StreamBuffer/Framing.antt =====
-- What copying bytes in and out and publishing an index do to the bytes held.
pub mod Writing
pub mod Reading
use freertos_in_rust.Prelude.{
  ℕ, ◌+◌, ◌≤◌, ◌<◌, ◌≡◌, ap, ◌∙◌, List, ◌++◌, arith, length, take, ok, word_mod,
}
use freertos_in_rust.StreamBuffer.{
  StreamBuffer, bytes_in_buffer, advance, splice, write_bytes_to_buffer, read_bytes_from_buffer,
  to_le_bytes, from_le_bytes,
}
use freertos_in_rust.StreamBuffer.Ring.{
  IsValid, wrap, window, contents, length-splice, window-splice, gather-window, window-add,
}

module _ {sb : StreamBuffer} (v : IsValid sb) where
  -- Copying `count` bytes in behind `n` that are there.
  pub write_bytes-window :
      (source : List ℕ) (count n : ℕ)
      → 0 < count
      → count ≤ length source
      → n + count < sb.len
      → (b : List ℕ) × (write_bytes_to_buffer sb source count (wrap sb.len (sb.tail + n))
          ≡ ok (wrap sb.len (sb.tail + (n + count)), record sb { buffer = b }))
        × (length b ≡ sb.len)
        × (window b sb.len sb.tail (n + count)
            ≡ window sb.buffer sb.len sb.tail n ++ take count source)
  unfolding write_bytes_to_buffer advance
  write_bytes-window source count n p h k = (
    splice sb.buffer sb.len (wrap sb.len (sb.tail + n)) source count,
    ground arith,
    length-splice sb.buffer sb.len v.storage v.small (wrap sb.len (sb.tail + n)) source count,
    window-splice sb.buffer sb.len v.storage v.small sb.tail n source count v.tail_in (omega arith)
        h,
  )

  -- Publishing the head behind `n` bytes.
  pub publish-contents :
      (b : List ℕ) (n : ℕ)
      → length b ≡ sb.len
      → n < sb.len
      → let sb' : StreamBuffer = record sb { buffer = b; head = wrap sb.len (sb.tail + n) } in
        IsValid sb' × (contents sb' ≡ window b sb.len sb.tail n)
  unfolding contents bytes_in_buffer
  publish-contents b n e k = (ground arith, ap (window b sb.len sb.tail) (ground arith))

  -- Copying out the first `count` of `n` bytes from the tail on.
  pub read_bytes-window :
      (skip count : ℕ)
      → 0 < count
      → skip + count < sb.len
      → read_bytes_from_buffer sb count (wrap sb.len (sb.tail + skip))
        ≡ ok (
          window sb.buffer sb.len (wrap sb.len (sb.tail + skip)) count,
          wrap sb.len (sb.tail + (skip + count)),
        )
  unfolding read_bytes_from_buffer advance
  read_bytes-window skip count p k =
      ground (
        arith,
        gather-window sb.buffer sb.len v.storage v.small (wrap sb.len (sb.tail + skip)) count,
      )

  -- Publishing the tail behind `n` bytes drops them.
  pub consume-contents :
      (n : ℕ)
      → n ≤ bytes_in_buffer sb
      → let sb' : StreamBuffer = record sb { tail = wrap sb.len (sb.tail + n) } in
        IsValid sb' × (contents sb ≡ window sb.buffer sb.len sb.tail n ++ contents sb')
  unfolding contents bytes_in_buffer
  consume-contents n k =
      let left = bytes_in_buffer (record sb { tail = wrap sb.len (sb.tail + n) }) in
      let all : bytes_in_buffer sb ≡ n + left = ground arith in
      (
        ground arith,
        ap (window sb.buffer sb.len sb.tail) all
            ∙ window-add sb.buffer sb.len sb.tail n left v.tail_in (ground arith),
      )

pub from_le_bytes-to_le_bytes : (n : ℕ) → n < word_mod → from_le_bytes (to_le_bytes n) ≡ n
unfolding from_le_bytes to_le_bytes
from_le_bytes-to_le_bytes n h = omega arith

-- How a write leaves the object: only the storage and the head move.
abbrev pub wrote : StreamBuffer → List ℕ → ℕ → StreamBuffer
wrote sb b h = record sb { buffer = b; head = h }

-- How a read leaves the object: only the tail moves.
abbrev pub took : StreamBuffer → ℕ → StreamBuffer
took sb t = record sb { tail = t }
