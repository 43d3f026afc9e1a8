-- ===== src/StreamBuffer/Calls/Bytes.antt =====
-- A stream buffer against a bounded queue of bytes, and whom its sender wakes.
use freertos_in_rust.Prelude.{
  ℕ, zero, suc, ◌-◌, min, ◌≡◌, refl, sym, ap, ◌∙◌, inl, inr, true, false, List, [], ◌∷◌, ◌++◌,
  arith, ◌==◌, Bool-cases, length, take, drop, Outcome, ok,
}
use freertos_in_rust.StreamBuffer.{
  StreamBuffer, is_message_buffer, bytes_in_buffer, spaces_available,
}
use freertos_in_rust.StreamBuffer.Ring.{IsValid, contents, bytes-add-spaces, length-contents}
use freertos_in_rust.StreamBuffer.Framing.{wrote, took}
use freertos_in_rust.StreamBuffer.Framing.Writing.{write_plain}
use freertos_in_rust.StreamBuffer.Framing.Reading.{read_plain}
use freertos_in_rust.StreamBuffer.Calls.{Effect, required_space, send_from_isr, receive_from_isr}
use freertos_in_rust.StreamBuffer.Calls.Wakeups.{
  SameBytes, SameBytes-contents, SameBytes-IsValid, SameBytes-is_message_buffer,
  after_write-SameBytes, after_read-SameBytes,
}

-- A valid buffer without framing that holds the bytes `xs`, oldest first.
pub record HoldsBytes (sb : StreamBuffer) (xs : List ℕ) : Type 0 where
  pub valid : IsValid sb
  pub kind : is_message_buffer sb ≡ false
  pub held : contents sb ≡ xs

abbrev pub AnswersBytes :
    {A : Type 0} → StreamBuffer → Outcome (A × StreamBuffer × List Effect) → A × List ℕ → Type 0
AnswersBytes sb r (a, xs) =
    (sb' : StreamBuffer) × (effects : List Effect) × (r ≡ ok (a, sb', effects))
    × HoldsBytes sb' xs
    × SameBut sb sb'
  where
    SameBut : StreamBuffer → StreamBuffer → Type 0
    SameBut s t = (t.len ≡ s.len) × (t.trigger_level_bytes ≡ s.trigger_level_bytes)

pub SameBytes-HoldsBytes :
    {s t : StreamBuffer} {xs : List ℕ} → SameBytes s t → HoldsBytes s xs → HoldsBytes t xs
SameBytes-HoldsBytes same h = record {
  valid = SameBytes-IsValid same h.valid;
  kind = SameBytes-is_message_buffer same ∙ h.kind;
  held = SameBytes-contents same ∙ h.held;
}

-- The specification: a queue of at most `capacity` bytes.
unfoldable pub send_bytes : ℕ → List ℕ → List ℕ → ℕ × List ℕ
send_bytes capacity xs source =
    let n = min (length source) (capacity - length xs) in (n, xs ++ take n source)

unfoldable pub receive_bytes : List ℕ → ℕ → List ℕ × List ℕ
receive_bytes xs capacity = (take (min capacity (length xs)) xs, drop (min capacity (length xs)) xs)

take-drop-append :
    (xs ys : List ℕ) (n : ℕ) → length xs ≡ n → (take n (xs ++ ys) ≡ xs) × (drop n (xs ++ ys) ≡ ys)
take-drop-append [] ys zero e = (refl, refl)
take-drop-append [] ys (suc n) e = absurd (omega arith)
take-drop-append (x ∷ xs) ys zero e = absurd (omega arith)
take-drop-append (x ∷ xs) ys (suc n) e =
    let rest = take-drop-append xs ys n (omega arith) in (ap (λ r. x ∷ r) rest.0, rest.1)

module _ {sb : StreamBuffer} {xs : List ℕ} (h : HoldsBytes sb xs) where
  bytes-length : bytes_in_buffer sb ≡ length xs
  bytes-length = omega (arith, length-contents h.valid, ap length h.held)

  -- `xStreamBufferSendFromISR` on a valid stream buffer appends as many of the bytes as there is space for,
  -- and returns their number.
  pub send_bytes_refines :
      (source : List ℕ)
      → AnswersBytes sb
          (send_from_isr sb source (length source))
          (send_bytes (sb.len - 1) xs source)
  unfolding send_from_isr send_bytes required_space is_message_buffer
  send_bytes_refines source =
      let space = spaces_available sb in
      let n = min (length source) space in
      let (b, hd, e, valid, held) =
        write_plain h.valid source (length source) space (length source) h.kind (omega arith)
          (omega arith) in
      let (sb', effects, r, same) = after_write-SameBytes true [] n (wrote sb b hd) in
      let free : space ≡ sb.len - 1 - length xs =
        omega (arith, bytes-add-spaces h.valid, bytes-length) in
      let holds : HoldsBytes (wrote sb b hd) (xs ++ take n source) = record {
        valid = valid;
        kind = h.kind;
        held = held ∙ ap (λ w. w ++ take n source) h.held;
      } in
      rw (← free) (
        sb',
        effects,
        ground (arith, h.kind),
        SameBytes-HoldsBytes same holds,
        (same.len, same.trigger),
      )

  -- `xStreamBufferReceiveFromISR` on a valid stream buffer takes the oldest bytes, as many as the
  -- caller asks for and there are.
  pub receive_bytes_refines :
      (capacity : ℕ) → AnswersBytes sb (receive_from_isr sb capacity) (receive_bytes xs capacity)
  unfolding receive_from_isr receive_bytes is_message_buffer
  receive_bytes_refines capacity = elim (Bool-cases (bytes_in_buffer sb == 0)) [
    | inl empty ↦
        let none_taken : min capacity (length xs) ≡ 0 = ground (arith, bytes-length) in
        rw none_taken (sb, [], ground (arith, h.kind), h, (refl, refl))
    | inr more ↦
        let n = min capacity (length xs) in
        let (ys, t, e, valid, l, held) = read_plain h.valid capacity h.kind in
        let split : xs ≡ ys ++ contents (took sb t) = sym h.held ∙ held in
        let parts = take-drop-append ys (contents (took sb t)) n (omega (arith, bytes-length)) in
        let taken : take n xs ≡ ys = ap (take n) split ∙ parts.0 in
        let left : drop n xs ≡ contents (took sb t) = ap (drop n) split ∙ parts.1 in
        let (sb', effects, r, same) = after_read-SameBytes true [] ys (took sb t) in
        let holds : HoldsBytes (took sb t) (contents (took sb t)) = record {
          valid = valid;
          kind = h.kind;
          held = refl;
        } in
        rw (taken, left)
          (
            sb',
            effects,
            ground (arith, h.kind),
            SameBytes-HoldsBytes same holds,
            (same.len, same.trigger),
          )
  ]
