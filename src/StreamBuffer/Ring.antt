-- ===== src/StreamBuffer/Ring.antt =====
-- The circular storage of stream_buffer.rs: which bytes it holds, and what a copy in or out does.
use freertos_in_rust.Prelude.{
  ℕ, zero, suc, ◌+◌, ◌-◌, ◌^◌, ◌≤◌, ◌<◌, min, ◌≡◌, refl, sym, ap, ◌∙◌, List, [], ◌∷◌, ◌++◌, arith,
  ltb, leb, if◌then◌else◌, length, get_or, take, drop, length-append, length-take, length-drop,
  get_or-take, get_or-drop, eq_of_get_or, copy_at, length-copy_at, get_or-append, get_or-copy_at,
  sub_word,
}
use freertos_in_rust.StreamBuffer.{
  StreamBuffer, bytes_in_buffer, spaces_available, advance, splice, gather,
}

-- Rust objects have at most `isize::MAX` bytes, so `len + head` cannot wrap.
pub record IsValid (sb : StreamBuffer) : Type 0 where
  pub storage : length sb.buffer ≡ sb.len
  pub head_in : sb.head < sb.len
  pub tail_in : sb.tail < sb.len
  pub small : sb.len < 2 ^ 31

abbrev pub wrap : ℕ → ℕ → ℕ
wrap len i = if leb len i then i - len else i

-- the `n` bytes from index `at` on, going round at `len`
unfoldable pub window : List ℕ → ℕ → ℕ → ℕ → List ℕ
window buf len at zero = []
window buf len at (suc n) = get_or buf at 0 ∷ window buf len (wrap len (at + 1)) n

pub length-window : (buf : List ℕ) (len at n : ℕ) → length (window buf len at n) ≡ n
unfolding window
length-window buf len at zero = refl
length-window buf len at (suc n) = ap suc (length-window buf len (wrap len (at + 1)) n)

pub get_or-window :
    (buf : List ℕ) (len at n i : ℕ)
    → at < len
    → n ≤ len
    → i < n
    → get_or (window buf len at n) i 0 ≡ get_or buf (wrap len (at + i)) 0
unfolding window
get_or-window buf len at zero i h k lt = absurd (omega arith)
get_or-window buf len at (suc n) zero h k lt = ap (λ j. get_or buf j 0) (ground arith)
get_or-window buf len at (suc n) (suc i) h k lt =
    get_or-window buf len (wrap len (at + 1)) n i (ground arith) (omega arith) (omega arith)
    ∙ ap (λ j. get_or buf j 0) (ground arith)

-- the unread bytes, oldest first
unfoldable pub contents : StreamBuffer → List ℕ
contents sb = window sb.buffer sb.len sb.tail (bytes_in_buffer sb)

module _ (buf : List ℕ) (len : ℕ) (storage : length buf ≡ len) (small : len < 2 ^ 31) where
  pub length-splice :
      (head : ℕ) (source : List ℕ) (count : ℕ) → length (splice buf len head source count) ≡ len
  unfolding splice
  length-splice head source count = ground (
    arith,
    length-copy_at buf head source (min (sub_word len head) count),
    length-copy_at (copy_at buf head source (min (sub_word len head) count)) 0
        (drop (min (sub_word len head) count) source) (count - min (sub_word len head) count),
  )

  get_or-splice :
      (head : ℕ) (source : List ℕ) (count i : ℕ)
      → head < len
      → count ≤ len
      → count ≤ length source
      → i < len
      → get_or (splice buf len head source count) (wrap len (head + i)) 0
        ≡ (if ltb i count then get_or source i 0 else get_or buf (wrap len (head + i)) 0)
  unfolding splice
  get_or-splice head source count i h k l lt =
      let f = min (sub_word len head) count in
      let j = wrap len (head + i) in
      ground (
        arith,
        get_or-copy_at buf head source f j 0,
        get_or-copy_at (copy_at buf head source f) 0 (drop f source) (count - f) j 0,
        length-copy_at buf head source f,
        length-drop f source,
        get_or-drop f source (j - 0) 0,
      )

  get_or-window-splice :
      (tail n : ℕ) (source : List ℕ) (count j : ℕ)
      → tail < len
      → n + count ≤ len
      → count ≤ length source
      → j < n + count
      → get_or (window (splice buf len (wrap len (tail + n)) source count) len tail (n + count)) j 0
        ≡ get_or (window buf len tail n ++ take count source) j 0
  get_or-window-splice tail n source count j t k l lt =
      let head = wrap len (tail + n) in
      let i = if ltb j n then j + len - n else j - n in
      ground (
        arith,
        get_or-window (splice buf len head source count) len tail (n + count) j,
        get_or-splice head source count i,
        get_or-append (window buf len tail n) (take count source) j 0,
        length-window buf len tail n,
        get_or-window buf len tail n j,
        get_or-take count source (j - n) 0,
      )

  -- Copying `count` bytes in just past a window extends it by those bytes.
  pub window-splice :
      (tail n : ℕ) (source : List ℕ) (count : ℕ)
      → tail < len
      → n + count ≤ len
      → count ≤ length source
      → window (splice buf len (wrap len (tail + n)) source count) len tail (n + count)
        ≡ window buf len tail n ++ take count source
  window-splice tail n source count t k l =
      let copied = splice buf len (wrap len (tail + n)) source count in
      let measured : length (window copied len tail (n + count)) ≡ n + count =
        length-window copied len tail (n + count) in
      eq_of_get_or _ _ 0
        (omega (
          arith,
          measured,
          length-append (window buf len tail n) (take count source),
          length-window buf len tail n,
          length-take count source,
        ))
        (λ j lt. get_or-window-splice tail n source count j t k l (omega arith))

  length-gather :
      (tail count : ℕ) → tail < len → count ≤ len → length (gather buf len tail count) ≡ count
  unfolding gather
  length-gather tail count t k =
      let first = min (sub_word len tail) count in
      ground (
        arith,
        length-take first (drop tail buf),
        length-drop tail buf,
        length-take (count - first) buf,
        length-append (take first (drop tail buf)) (take (count - first) buf),
      )

  get_or-gather :
      (tail count j : ℕ)
      → tail < len
      → count ≤ len
      → j < count
      → get_or (gather buf len tail count) j 0 ≡ get_or buf (wrap len (tail + j)) 0
  unfolding gather
  get_or-gather tail count j t k lt =
      let first = min (sub_word len tail) count in
      ground (
        arith,
        get_or-append (take first (drop tail buf)) (take (count - first) buf) j 0,
        length-take first (drop tail buf),
        length-drop tail buf,
        get_or-take first (drop tail buf) j 0,
        get_or-drop tail buf j 0,
        get_or-take (count - first) buf (j - first) 0,
      )

  -- What is copied out is the window.
  pub gather-window :
      (tail count : ℕ)
      → tail < len
      → count ≤ len
      → gather buf len tail count ≡ window buf len tail count
  gather-window tail count t k =
      eq_of_get_or _ _ 0
        (omega (arith, length-gather tail count t k, length-window buf len tail count))
        (λ j lt.
          get_or-gather tail count j t k (omega (arith, length-gather tail count t k))
          ∙ sym (
              get_or-window buf len tail count j t k (omega (arith, length-gather tail count t k))))

-- A window falls into the part read and the part left.
pub window-add :
    (buf : List ℕ) (len tail m n : ℕ)
    → tail < len
    → m ≤ len
    → window buf len tail (m + n) ≡ window buf len tail m ++ window buf len (wrap len (tail + m)) n
unfolding window
window-add buf len tail zero n t k =
    let at : wrap len (tail + 0) ≡ tail = ground arith in
    let all : 0 + n ≡ n = omega arith in rw (at, all)
window-add buf len tail (suc m) n t k =
    let at : wrap len (wrap len (tail + 1) + m) ≡ wrap len (tail + suc m) = ground arith in
    let all : suc m + n ≡ suc (m + n) = omega arith in
    rw (all, ← at)
      (ap (λ rest. get_or buf tail 0 ∷ rest)
        (window-add buf len (wrap len (tail + 1)) m n (ground arith) (omega arith)))

-- The code's modular arithmetic, without overflow.
module _ {sb : StreamBuffer} (v : IsValid sb) where
  pub advance-wrap :
      (count : ℕ) → count ≤ sb.len → advance sb.len sb.tail count ≡ wrap sb.len (sb.tail + count)
  unfolding advance
  advance-wrap count k = ground arith

  -- Bytes held and spaces make up the capacity, one less than the storage.
  pub bytes-add-spaces : bytes_in_buffer sb + spaces_available sb ≡ sb.len - 1
  unfolding bytes_in_buffer spaces_available
  bytes-add-spaces = ground arith

  pub bytes_lt : bytes_in_buffer sb < sb.len
  unfolding bytes_in_buffer
  bytes_lt = ground arith

  pub head-wrap : sb.head ≡ wrap sb.len (sb.tail + bytes_in_buffer sb)
  unfolding bytes_in_buffer
  head-wrap = ground arith

  pub length-contents : length (contents sb) ≡ bytes_in_buffer sb
  unfolding contents
  length-contents = length-window sb.buffer sb.len sb.tail (bytes_in_buffer sb)

  -- The head that `advance` gives after `n` more bytes leaves `n` more in the buffer.
  pub bytes-advance_head :
      (n : ℕ) (h : ℕ)
      → bytes_in_buffer sb + n < sb.len
      → h ≡ advance sb.len sb.head n
      → (bytes_in_buffer (record sb { head = h }) ≡ bytes_in_buffer sb + n) × (h < sb.len)
  unfolding bytes_in_buffer advance
  bytes-advance_head n h k e = ground arith

  pub bytes-advance_tail :
      (n : ℕ) (t : ℕ)
      → n ≤ bytes_in_buffer sb
      → t ≡ advance sb.len sb.tail n
      → (bytes_in_buffer (record sb { tail = t }) + n ≡ bytes_in_buffer sb) × (t < sb.len)
  unfolding bytes_in_buffer advance
  bytes-advance_tail n t k e = ground arith
