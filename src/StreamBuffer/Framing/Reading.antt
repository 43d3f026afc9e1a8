-- ===== src/StreamBuffer/Framing/Reading.antt =====
-- What `prvReadMessageFromBuffer` takes from the bytes held, with and without a length prefix.
use freertos_in_rust.Prelude.{
  ℕ, ◌+◌, ◌≤◌, ◌<◌, min, ◌≡◌, refl, sym, ap, ◌∙◌, inl, inr, true, false, List, [], ◌++◌,
  append_assoc, arith, ◌==◌, Bool-cases, length, length-append, append_inj, ok, word_mod,
}
use freertos_in_rust.StreamBuffer.{
  StreamBuffer, is_message_buffer, bytes_in_buffer, read_bytes_from_buffer, to_le_bytes, read_data,
  read_message_from_buffer,
}
use freertos_in_rust.StreamBuffer.Ring.{
  IsValid, wrap, window, length-window, contents, window-add, bytes_lt, length-contents,
}
use freertos_in_rust.StreamBuffer.Framing.{
  read_bytes-window, consume-contents, from_le_bytes-to_le_bytes, took,
}

module _ {sb : StreamBuffer} (v : IsValid sb) where
  -- The first `count` bytes behind `skip`, published with what stands before them.
  read_data-contents :
      (count skip : ℕ)
      → 0 < count
      → skip + count ≤ bytes_in_buffer sb
      → (xs : List ℕ) × (t : ℕ) × (read_data sb count (wrap sb.len (sb.tail + skip))
          ≡ ok (xs, took sb t))
        × IsValid (took sb t)
        × (length xs ≡ count)
        × (contents sb ≡ window sb.buffer sb.len sb.tail skip ++ (xs ++ contents (took sb t)))
  unfolding read_data
  read_data-contents count skip p k =
      let (valid, held) = consume-contents v (skip + count) k in
      let xs = window sb.buffer sb.len (wrap sb.len (sb.tail + skip)) count in
      (
        xs,
        wrap sb.len (sb.tail + (skip + count)),
        ground (arith, read_bytes-window v skip count p, bytes_lt v),
        valid,
        length-window sb.buffer sb.len (wrap sb.len (sb.tail + skip)) count,
        held
            ∙ ap (λ w. w ++ contents (took sb (wrap sb.len (sb.tail + (skip + count)))))
                (window-add sb.buffer sb.len sb.tail skip count v.tail_in
                  (omega (arith, bytes_lt v)))
            ∙ append_assoc (window sb.buffer sb.len sb.tail skip) xs _,
      )

  -- Without a prefix, the caller gets the oldest bytes, as many as it asks for and there are.
  pub read_plain :
      (capacity : ℕ)
      → is_message_buffer sb ≡ false
      → (xs : List ℕ) × (t : ℕ) × (read_message_from_buffer sb capacity (bytes_in_buffer sb)
          ≡ ok (xs, took sb t))
        × IsValid (took sb t)
        × (length xs ≡ min capacity (bytes_in_buffer sb))
        × (contents sb ≡ xs ++ contents (took sb t))
  unfolding read_message_from_buffer read_data window
  read_plain capacity kind = elim (Bool-cases (min capacity (bytes_in_buffer sb) == 0)) [
    | inl nothing ↦ ([], sb.tail, ground arith, v, ground arith, refl)
    | inr more ↦
        let (xs, t, e, valid, l, held) =
          read_data-contents (min capacity (bytes_in_buffer sb)) 0 (ground arith) (omega arith) in
        let at : wrap sb.len (sb.tail + 0) ≡ sb.tail = ground arith in
        (xs, t, ground arith, valid, l, held)
  ]

  -- The length prefix of the message at the tail.
  module _ (count : ℕ) (rest : List ℕ) (small : count < word_mod)
      (framed : contents sb ≡ to_le_bytes count ++ rest) where
    framed-bytes : bytes_in_buffer sb ≡ 4 + length rest
    unfolding to_le_bytes
    framed-bytes =
        omega (arith, length-contents v, ap length framed, length-append (to_le_bytes count) rest)

    prefix-window : window sb.buffer sb.len sb.tail 4 ≡ to_le_bytes count
    unfolding to_le_bytes
    prefix-window =
        (append_inj (window sb.buffer sb.len sb.tail 4) (to_le_bytes count)
          (length-window sb.buffer sb.len sb.tail 4)
          (sym (consume-contents v 4 (omega (arith, framed-bytes))).1 ∙ framed)).0

    pub read_prefix :
        read_bytes_from_buffer sb 4 sb.tail ≡ ok (to_le_bytes count, wrap sb.len (sb.tail + 4))
    read_prefix =
        let at : wrap sb.len (sb.tail + 0) ≡ sb.tail = ground arith in
        ground (arith, framed-bytes, bytes_lt v, prefix-window, read_bytes-window v 0 4)

  -- A message that the caller's buffer can hold is received whole, and the rest stays.
  pub read_framed :
      (capacity count : ℕ) (message rest : List ℕ)
      → is_message_buffer sb ≡ true
      → 0 < count
      → count < word_mod
      → length message ≡ count
      → contents sb ≡ to_le_bytes count ++ (message ++ rest)
      → count ≤ capacity
      → (t : ℕ) × (read_message_from_buffer sb capacity (bytes_in_buffer sb)
          ≡ ok (message, took sb t))
        × IsValid (took sb t)
        × (contents (took sb t) ≡ rest)
  unfolding read_message_from_buffer
  read_framed capacity count message rest kind p small l held room =
      let bytes = framed-bytes count (message ++ rest) small held in
      let all : bytes_in_buffer sb ≡ 4 + (count + length rest) =
        omega (arith, bytes, length-append message rest) in
      let (xs, t, e, valid, n, h) = read_data-contents count 4 p (omega arith) in
      let parts =
        append_inj (window sb.buffer sb.len sb.tail 4) (to_le_bytes count)
          (ap length (prefix-window count (message ++ rest) small held)) (sym h ∙ held) in
      let same = append_inj xs message (omega arith) parts.1 in
      (
        t,
        ground (
          arith,
          read_prefix count (message ++ rest) small held,
          from_le_bytes-to_le_bytes count small,
          bytes_lt v,
        ),
        valid,
        same.1,
      )

  -- A message that the caller's buffer cannot hold stays where it is.
  pub read_framed_short :
      (capacity count : ℕ) (rest : List ℕ)
      → is_message_buffer sb ≡ true
      → count < word_mod
      → contents sb ≡ to_le_bytes count ++ rest
      → capacity < count
      → read_message_from_buffer sb capacity (bytes_in_buffer sb) ≡ ok ([], sb)
  unfolding read_message_from_buffer
  read_framed_short capacity count rest kind small held short =
      ground (arith, read_prefix count rest small held, from_le_bytes-to_le_bytes count small)
