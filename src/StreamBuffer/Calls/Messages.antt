-- ===== src/StreamBuffer/Calls/Messages.antt =====
-- A message buffer against a bounded queue of messages.
use freertos_in_rust.Prelude.{
  ℕ, ◌+◌, ◌-◌, ◌≤◌, ◌<◌, ◌≡◌, refl, sym, ap, ◌∙◌, inl, inr, true, none, some, List, [], ◌∷◌, ◌++◌,
  append-nil, append_assoc, arith, ltb, leb, ◌==◌, if◌then◌else◌, Bool-cases, length, take,
  length-append, take-length, Outcome, ok, word_mod,
}
use freertos_in_rust.StreamBuffer.{
  StreamBuffer, is_message_buffer, bytes_in_buffer, spaces_available, to_le_bytes,
  write_message_to_buffer,
}
use freertos_in_rust.StreamBuffer.Ring.{IsValid, contents, bytes-add-spaces, length-contents}
use freertos_in_rust.StreamBuffer.Framing.Writing.{
  write_framed, write_framed_empty, write_framed_full,
}
use freertos_in_rust.StreamBuffer.Calls.{Effect, required_space, send_from_isr}
use freertos_in_rust.StreamBuffer.Calls.Wakeups.{
  SameBytes, SameBytes-contents, SameBytes-IsValid, SameBytes-is_message_buffer,
  after_write-SameBytes,
}

-- the bytes that a sequence of messages takes in the buffer
unfoldable pub frames : List (List ℕ) → List ℕ
frames [] = []
frames (m ∷ ms) = to_le_bytes (length m) ++ (m ++ frames ms)

-- the space that it takes up
unfoldable pub total : List (List ℕ) → ℕ
total [] = 0
total (m ∷ ms) = length m + 4 + total ms

-- Every message has a byte.
abbrev pub AllSized : List (List ℕ) → Type 0
AllSized [] = Unit
AllSized (m ∷ ms) = (0 < length m) × AllSized ms

-- A valid message buffer that holds the messages `ms`, oldest first.
pub record Holds (sb : StreamBuffer) (ms : List (List ℕ)) : Type 0 where
  pub valid : IsValid sb
  pub kind : is_message_buffer sb ≡ true
  pub framed : contents sb ≡ frames ms
  pub sized : AllSized ms

frames-append :
    (ms : List (List ℕ)) (m : List ℕ)
    → frames (ms ++ (m ∷ [])) ≡ frames ms ++ (to_le_bytes (length m) ++ m)
unfolding frames
frames-append [] m = simp append-nil
frames-append (x ∷ ms) m = simp (frames-append ms m, append_assoc)

length-frames : (ms : List (List ℕ)) → length (frames ms) ≡ total ms
unfolding frames total to_le_bytes
length-frames [] = refl
length-frames (m ∷ ms) = omega (arith, length-frames ms, length-append m (frames ms))

AllSized-append :
    (ms : List (List ℕ)) (m : List ℕ) → 0 < length m → AllSized ms → AllSized (ms ++ (m ∷ []))
AllSized-append [] m p h = (p, tt)
AllSized-append (x ∷ ms) m p h = (h.0, AllSized-append ms m p h.1)

-- The specification: a queue of messages in `capacity` bytes, each with a prefix of four. An empty
-- message is not sent.
unfoldable pub send_message : ℕ → List (List ℕ) → List ℕ → ℕ × List (List ℕ)
send_message capacity ms m =
    if length m == 0
    then (0, ms)
    else if leb (total ms + (length m + 4)) capacity
    then (length m, ms ++ (m ∷ []))
    else (0, ms)

unfoldable pub receive_message : List (List ℕ) → ℕ → List ℕ × List (List ℕ)
receive_message [] capacity = ([], [])
receive_message (m ∷ ms) capacity = if leb (length m) capacity then (m, ms) else ([], m ∷ ms)

pub bytes-total :
    {sb : StreamBuffer} {ms : List (List ℕ)} → Holds sb ms → bytes_in_buffer sb ≡ total ms
bytes-total {ms = ms} h =
    omega (arith, length-contents h.valid, ap length h.framed, length-frames ms)

-- `Holds` passes to a state that differs in the wake-up slots only.
pub SameBytes-Holds :
    {s t : StreamBuffer} {ms : List (List ℕ)} → SameBytes s t → Holds s ms → Holds t ms
SameBytes-Holds same h = record {
  valid = SameBytes-IsValid same h.valid;
  kind = SameBytes-is_message_buffer same ∙ h.kind;
  framed = SameBytes-contents same ∙ h.framed;
  sized = h.sized;
}

-- What a call may answer: a reply, a state that holds the messages `ms`, and some effects.
abbrev pub Answers :
    {A : Type 0}
    → StreamBuffer
    → Outcome (A × StreamBuffer × List Effect)
    → A × List (List ℕ)
    → Type 0
Answers sb r (a, ms) =
    (sb' : StreamBuffer) × (effects : List Effect) × (r ≡ ok (a, sb', effects))
    × Holds sb' ms
    × (sb'.len ≡ sb.len)

module _ {sb : StreamBuffer} {ms : List (List ℕ)} (h : Holds sb ms) (m : List ℕ) where
  -- A write that leaves the messages `ms'` makes a call that does.
  after_write-Answers :
      {sb' : StreamBuffer} (n required : ℕ) (ms' : List (List ℕ))
      → required_space sb (length m) ≡ some required
      → write_message_to_buffer sb m (length m) (spaces_available sb) required ≡ ok (n, sb')
      → Holds sb' ms'
      → sb'.len ≡ sb.len
      → Answers sb (send_from_isr sb m (length m)) (n, ms')
  unfolding send_from_isr
  after_write-Answers {sb' = sb'} n required ms' s w h' e =
      let (sb'', effects, r, same) = after_write-SameBytes true [] n sb' in
      (sb'', effects, ground arith, SameBytes-Holds same h', same.len ∙ e)

  required_space-some : length m + 4 < word_mod → required_space sb (length m) ≡ some (length m + 4)
  unfolding required_space
  required_space-some k = ground (arith, h.kind)

  required_space-none : word_mod ≤ length m + 4 → required_space sb (length m) ≡ none
  unfolding required_space
  required_space-none k = ground (arith, h.kind)

  send-fits :
      0 < length m
      → total ms + (length m + 4) ≤ sb.len - 1
      → Answers sb (send_from_isr sb m (length m)) (length m, ms ++ (m ∷ []))
  unfolding is_message_buffer
  send-fits p room =
      let (b, hd, e, valid, held) =
        write_framed h.valid m (length m) (spaces_available sb) h.kind p (omega arith) (omega arith)
          (omega (arith, bytes-add-spaces h.valid, bytes-total h)) in
      after_write-Answers (length m) (length m + 4) (ms ++ (m ∷ []))
        (required_space-some (omega (arith, h.valid.small))) e
        (record {
          valid = valid;
          kind = h.kind;
          framed =
              held
              ∙ ap (λ w. w ++ (to_le_bytes (length m) ++ take (length m) m)) h.framed
              ∙ ap (λ w. frames ms ++ (to_le_bytes (length m) ++ w)) (take-length m)
              ∙ sym (frames-append ms m);
          sized = AllSized-append ms m p h.sized;
        })
        refl

  send-empty : length m ≡ 0 → Answers sb (send_from_isr sb m (length m)) (0, ms)
  unfolding is_message_buffer
  send-empty z =
      let (b, e, valid, held) =
        write_framed_empty h.valid m (spaces_available sb) h.kind (omega arith) in
      after_write-Answers 0 4 ms (required_space-some (omega arith) ∙ ground arith) (rw z e)
        (record { valid = valid; kind = h.kind; framed = held ∙ h.framed; sized = h.sized }) refl

  send-full :
      sb.len - 1 < total ms + (length m + 4) → Answers sb (send_from_isr sb m (length m)) (0, ms)
  unfolding send_from_isr
  send-full full = elim (Bool-cases (ltb (length m + 4) word_mod)) [
    | inl small ↦
        after_write-Answers 0 (length m + 4) ms (required_space-some (ground arith))
          (write_framed_full h.valid m (length m) (spaces_available sb) (length m + 4) h.kind
            (omega (arith, bytes-add-spaces h.valid, bytes-total h)))
          h refl
    | inr large ↦ (sb, [], ground (arith, required_space-none), h, refl)
  ]

  -- `xStreamBufferSendFromISR` puts a message behind those that the buffer holds exactly if it has a
  -- byte and there is space for it and its prefix, and returns its length; otherwise it returns 0
  -- and the messages stay.
  pub send_refines : Answers sb (send_from_isr sb m (length m)) (send_message (sb.len - 1) ms m)
  unfolding send_message
  send_refines = elim (Bool-cases (length m == 0)) [
    | inl empty ↦ rw empty (send-empty (ground arith))
    | inr p ↦ rw p (elim (Bool-cases (leb (total ms + (length m + 4)) (sb.len - 1))) [
      | inl room ↦ rw room (send-fits (ground arith) (ground arith))
      | inr full ↦ rw full (send-full (ground arith))
    ])
  ]
