-- ===== src/StreamBuffer/Framing/Writing.antt =====
-- What `prvWriteMessageToBuffer` adds to the bytes held, with and without a length prefix.
use freertos_in_rust.Prelude.{
  ℕ, ◌+◌, ◌≤◌, ◌<◌, min, ◌≡◌, refl, sym, ap, ◌∙◌, inl, inr, true, false, List, ◌++◌, append-nil,
  append_assoc, arith, leb, ◌==◌, Bool-cases, length, take, append_inj, ok,
}
use freertos_in_rust.StreamBuffer.{
  StreamBuffer, is_message_buffer, bytes_in_buffer, spaces_available, to_le_bytes, write_data,
  write_message_to_buffer,
}
use freertos_in_rust.StreamBuffer.Ring.{
  IsValid, wrap, window, length-window, contents, window-add, bytes-add-spaces, bytes_lt, head-wrap,
}
use freertos_in_rust.StreamBuffer.Framing.{write_bytes-window, publish-contents, wrote}

module _ {sb : StreamBuffer} (v : IsValid sb) where
  -- Bytes written behind `n` that are there, published with them.
  write_data-contents :
      (source : List ℕ) (count n : ℕ)
      → 0 < count
      → count ≤ length source
      → n + count < sb.len
      → (b : List ℕ) × (h : ℕ) × (write_data sb source count (wrap sb.len (sb.tail + n))
          ≡ ok (count, wrote sb b h))
        × IsValid (wrote sb b h)
        × (contents (wrote sb b h) ≡ window sb.buffer sb.len sb.tail n ++ take count source)
  unfolding write_data
  write_data-contents source count n p l k =
      let (b, e, storage, copied) = write_bytes-window v source count n p l k in
      let (valid, held) = publish-contents v b (n + count) storage k in
      (b, wrap sb.len (sb.tail + (n + count)), ground arith, valid, held ∙ copied)

module _ {sb : StreamBuffer} (v : IsValid sb) where
  -- Without a prefix, as many bytes are appended as the caller says there is space for.
  pub write_plain :
      (source : List ℕ) (count space required : ℕ)
      → is_message_buffer sb ≡ false
      → count ≤ length source
      → space ≤ spaces_available sb
      → (b : List ℕ) × (h : ℕ) × (write_message_to_buffer sb source count space required
          ≡ ok (min count space, wrote sb b h))
        × IsValid (wrote sb b h)
        × (contents (wrote sb b h) ≡ contents sb ++ take (min count space) source)
  unfolding write_message_to_buffer write_data contents
  write_plain source count space required kind l s = elim (Bool-cases (min count space == 0)) [
    | inl nothing ↦ (sb.buffer, sb.head, ground arith, v, ground (arith, append-nil (contents sb)))
    | inr more ↦
        let (b, h, e, valid, held) =
          write_data-contents v source (min count space) (bytes_in_buffer sb) (ground arith)
            (omega arith) (omega (arith, bytes-add-spaces v, bytes_lt v)) in
        (b, h, ground (arith, head-wrap v), valid, held)
  ]

  -- A message that fits is appended with its length in front.
  pub write_framed :
      (source : List ℕ) (count space : ℕ)
      → is_message_buffer sb ≡ true
      → 0 < count
      → count ≤ length source
      → space ≤ spaces_available sb
      → count + 4 ≤ space
      → (b : List ℕ) × (h : ℕ) × (write_message_to_buffer sb source count space (count + 4)
          ≡ ok (count, wrote sb b h))
        × IsValid (wrote sb b h)
        × (contents (wrote sb b h) ≡ contents sb ++ (to_le_bytes count ++ take count source))
  unfolding write_message_to_buffer contents to_le_bytes
  write_framed source count space kind p l s f =
      let n = bytes_in_buffer sb in
      let room : n + 4 + count < sb.len = omega (arith, bytes-add-spaces v, bytes_lt v) in
      let (b, e, storage, prefixed) =
        write_bytes-window v (to_le_bytes count) 4 n (omega arith) (ground arith) (omega arith) in
      let sb' : StreamBuffer = record sb { buffer = b } in
      let v' : IsValid sb' = record {
        storage = storage;
        head_in = v.head_in;
        tail_in = v.tail_in;
        small = v.small;
      } in
      let (b', h, e', valid, held) =
        write_data-contents {sb = sb'} v' source count (n + 4) p l room in
      (
        b',
        h,
        ground (arith, head-wrap v),
        valid,
        held
            ∙ ap (λ w. w ++ take count source) prefixed
            ∙ append_assoc (contents sb) (to_le_bytes count) (take count source),
      )

  -- Of an empty message the prefix is copied in, and not published.
  pub write_framed_empty :
      (source : List ℕ) (space : ℕ)
      → is_message_buffer sb ≡ true
      → space ≤ spaces_available sb
      → (b : List ℕ) × (write_message_to_buffer sb source 0 space 4
          ≡ ok (0, record sb { buffer = b }))
        × IsValid (record sb { buffer = b })
        × (contents (record sb { buffer = b }) ≡ contents sb)
  unfolding write_message_to_buffer write_data to_le_bytes bytes_in_buffer contents
  write_framed_empty source space kind s = elim (Bool-cases (leb 4 space)) [
    | inl fits ↦
        let n = bytes_in_buffer sb in
        let room : n + 4 < sb.len = ground (arith, bytes-add-spaces v, bytes_lt v) in
        let (b, e, storage, copied) =
          write_bytes-window v (to_le_bytes 0) 4 n (omega arith) (ground arith) room in
        (
          b,
          ground (arith, head-wrap v),
          record { storage = storage; head_in = v.head_in; tail_in = v.tail_in; small = v.small },
          (append_inj (window b sb.len sb.tail n) (window sb.buffer sb.len sb.tail n)
              (length-window b sb.len sb.tail n ∙ sym (length-window sb.buffer sb.len sb.tail n))
              (sym (window-add b sb.len sb.tail n 4 v.tail_in (omega arith)) ∙ copied)).0,
        )
    | inr full ↦ (sb.buffer, ground arith, v, refl)
  ]

  -- A message that does not fit changes nothing.
  pub write_framed_full :
      (source : List ℕ) (count space required : ℕ)
      → is_message_buffer sb ≡ true
      → space < required
      → write_message_to_buffer sb source count space required ≡ ok (0, sb)
  unfolding write_message_to_buffer write_data
  write_framed_full source count space required kind f = ground arith
