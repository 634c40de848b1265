-- ===== src/Config/Capture.antt =====
-- capture_sequence of src/tools/keymap_config.c: the key whose sequence is taken.
use rmtdos.Base.{
  ℕ, ◌*◌, ◌%◌, ◌<◌, ◌≤◌, ◌≡◌, ◌⊎◌, Option, none, some, List, [], ◌∷◌, ◌++◌, ◌==◌, ltb, leb,
  if◌then◌else◌, length, length-append, lt→ltb, arith, refl, ◌∙◌, sym, ap, subst, Bool-cases, inl,
  inr, true,
}
use mathlib.Core.List.{append_assoc, append-nil}
use rmtdos.Keymap.Hex.{AreBytes}
use rmtdos.Config.{Input, getch}

-- The buffer that is being filled: its capacity and the bytes in it.
pub record CaptureBuffer : Type 0 where
  pub buffer_cap : ℕ
  pub bytes : List ℕ

-- buffer[buffer_len++] = ch; `none` is a write behind the buffer's end.
abbrev pub put : CaptureBuffer → ℕ → Option CaptureBuffer
put b ch =
    if ltb (length b.bytes) b.buffer_cap
    then some (record b { bytes = b.bytes ++ ch % 256 ∷ [] })
    else none

-- The capacity is doubled when the buffer is full.
abbrev pub grow : CaptureBuffer → CaptureBuffer
grow b = if leb b.buffer_cap (length b.bytes) then record b { buffer_cap = b.buffer_cap * 2 } else b

-- The loop that reads the rest of a sequence; codes that are no bytes are skipped.
unfoldable pub capture_rest : CaptureBuffer → Input → Option CaptureBuffer × Input
capture_rest b [] = (some b, [])
capture_rest b (none ∷ input) = (some b, input)
capture_rest b (some ch ∷ input) =
    let skipped = capture_rest b input in
    if ltb 255 ch
    then skipped
    else elim (put (grow b) ch) [ none ↦ (none, input) | some b' ↦ capture_rest b' input ]

-- What is captured: a write out of bounds, no sequence, or one.
pub data Captured : Type 0 where
  overrun : Captured
  cancelled : Captured
  sequence : List ℕ → Captured

-- Behind the first bytes, which are in a fresh buffer of 8.
abbrev pub capture_from : List ℕ → Input → Captured × Input
capture_from first input =
    let (result, input') = capture_rest (record { buffer_cap = 8; bytes = first }) input in
    elim result [ none ↦ (overrun, input') | some b ↦ (sequence b.bytes, input') ]

-- Escape waits for a second code, of which it keeps the low byte whatever it is.
abbrev capture_escape : Input → Captured × Input
capture_escape [] = (cancelled, [])
capture_escape (none ∷ input) = (cancelled, input)
capture_escape (some next_ch ∷ input) = capture_from (27 ∷ next_ch % 256 ∷ []) input

unfoldable pub capture_sequence : Input → Captured × Input
unfolding capture_rest
capture_sequence input =
    let (first_ch, input1) = getch input in
    elim first_ch [
      | none ↦ (cancelled, input1)
      | some first ↦
          if first == 27
          then capture_escape input1
          else if leb first 255
          then capture_from (first ∷ []) input1
          else (cancelled, input1)
    ]

-- The bytes among the codes before ERR.
abbrev pub bytes_before_err : Input → List ℕ
bytes_before_err [] = []
bytes_before_err (none ∷ input) = []
bytes_before_err (some ch ∷ input) =
    let rest = bytes_before_err input in if ltb 255 ch then rest else ch ∷ rest

-- The buffer has no more bytes than it has room for.
abbrev IsBuffer : CaptureBuffer → Type 0
IsBuffer b = (0 < b.buffer_cap) × (length b.bytes ≤ b.buffer_cap)

grow_room : (b : CaptureBuffer) → IsBuffer b → length (grow b).bytes < (grow b).buffer_cap
grow_room b h = ground arith

grow_bytes : (b : CaptureBuffer) → (grow b).bytes ≡ b.bytes
grow_bytes b = elim (Bool-cases (leb b.buffer_cap (length b.bytes))) [
  | inl full ↦ rw full refl
  | inr free ↦ rw free refl
]

capture_rest_lem :
    (b : CaptureBuffer) (input : Input)
    → IsBuffer b
    → (b' : CaptureBuffer) × ((capture_rest b input).0 ≡ some b')
      × (b'.bytes ≡ b.bytes ++ bytes_before_err input)
unfolding capture_rest
capture_rest_lem b [] h = (b, refl, sym (append-nil b.bytes))
capture_rest_lem b (none ∷ input) h = (b, refl, sym (append-nil b.bytes))
capture_rest_lem b (some ch ∷ input) h = elim (Bool-cases (ltb 255 ch)) [
  | inl skipped ↦
      (let (b', read, bytes) = capture_rest_lem b input h in
        (b', rw (skipped, capture_rest) read, rw skipped bytes))
  | inr byte ↦
      let g = grow b in
      let room : ltb (length g.bytes) g.buffer_cap ≡ true = lt→ltb _ _ (grow_room b h) in
      let low : ch % 256 ≡ ch = ground arith in
      let filled = record g { bytes = g.bytes ++ ch % 256 ∷ [] } in
      let longer = length-append g.bytes (ch % 256 ∷ []) in
      let (b', read, bytes) =
        capture_rest_lem filled input
          (omega (arith, grow_room b h), omega (arith, grow_room b h, longer)) in
      (
        b',
        rw (byte, capture_rest, room) read,
        rw byte (
            bytes
            ∙ append_assoc g.bytes (ch % 256 ∷ []) (bytes_before_err input)
            ∙ ap (λ s. s ++ ch % 256 ∷ bytes_before_err input) (grow_bytes b)
            ∙ ap (λ c. b.bytes ++ c ∷ bytes_before_err input) low),
      )
]

pub capture_from_lem :
    (first : List ℕ) (input : Input)
    → length first ≤ 8
    → (capture_from first input).0 ≡ sequence (first ++ bytes_before_err input)
unfolding capture_rest
capture_from_lem first input few =
    let (b', read, bytes) =
      capture_rest_lem (record { buffer_cap = 8; bytes = first }) input (omega arith, few) in
    rw (read, capture_from) (ap sequence bytes)

abbrev after_escape : Input → Captured
after_escape [] = cancelled
after_escape (none ∷ input) = cancelled
after_escape (some next_ch ∷ input) = sequence (27 ∷ next_ch % 256 ∷ bytes_before_err input)

-- What a key is taken for, without a buffer: the first code, for escape also the low byte of the
-- second, and the bytes that follow without a pause.
abbrev pub key_sequence : Input → Captured
key_sequence [] = cancelled
key_sequence (none ∷ input) = cancelled
key_sequence (some ch ∷ input) =
    if ch == 27
    then after_escape input
    else if leb ch 255
    then sequence (ch ∷ bytes_before_err input)
    else cancelled

capture_escape_lem : (input : Input) → (capture_escape input).0 ≡ after_escape input
unfolding capture_rest
capture_escape_lem [] = refl
capture_escape_lem (none ∷ input) = refl
capture_escape_lem (some next ∷ input) = capture_from_lem (27 ∷ next % 256 ∷ []) input (omega arith)

-- Whatever getch returns, capture_sequence never writes behind its buffer, and it takes the key for
-- what it is without a buffer: nothing where the first code is ERR or no byte or where ERR follows
-- escape, else the first bytes and all bytes before the next ERR, in their order.
pub capture_sequence_lem : (input : Input) → (capture_sequence input).0 ≡ key_sequence input
unfolding capture_sequence
capture_sequence_lem [] = refl
capture_sequence_lem (none ∷ input) = refl
capture_sequence_lem (some ch ∷ input) = elim (Bool-cases (ch == 27)) [
  | inl escape ↦ rw escape (capture_escape_lem input)
  | inr other ↦ elim (Bool-cases (leb ch 255)) [
    | inl byte ↦ rw (other, byte) (capture_from_lem (ch ∷ []) input (omega arith))
    | inr beyond ↦ rw (other, beyond) refl
  ]
]

bytes_before_err-AreBytes : (input : Input) → AreBytes (bytes_before_err input)
bytes_before_err-AreBytes [] = tt
bytes_before_err-AreBytes (none ∷ input) = tt
bytes_before_err-AreBytes (some ch ∷ input) = elim (Bool-cases (ltb 255 ch)) [
  | inl skipped ↦ rw skipped (bytes_before_err-AreBytes input)
  | inr byte ↦ rw byte (ground arith, bytes_before_err-AreBytes input)
]

length-bytes_before_err : (input : Input) → length (bytes_before_err input) ≤ length input
length-bytes_before_err [] = omega arith
length-bytes_before_err (none ∷ input) = omega arith
length-bytes_before_err (some ch ∷ input) = let rest = length-bytes_before_err input in ground arith

-- A sequence that is taken.
pub record IsTaken (input : Input) (seq : List ℕ) : Type 0 where
  pub bytes : AreBytes seq
  pub some_byte : 0 < length seq
  pub short : length seq ≤ length input

sequence_bytes : Captured → List ℕ
sequence_bytes overrun = []
sequence_bytes cancelled = []
sequence_bytes (sequence seq) = seq

IsTaken-key :
    (input : Input) (taken seq : List ℕ)
    → sequence taken ≡ sequence seq
    → IsTaken input taken
    → IsTaken input seq
unfolding sequence_bytes
IsTaken-key input taken seq e h = subst (IsTaken input) (ap sequence_bytes e) h

after_escape-IsTaken :
    (input : Input) (seq : List ℕ)
    → after_escape input ≡ sequence seq
    → IsTaken (some 27 ∷ input) seq
after_escape-IsTaken [] seq h = cc
after_escape-IsTaken (none ∷ input) seq h = cc
after_escape-IsTaken (some next_ch ∷ input) seq h =
    let rest = length-bytes_before_err input in
    IsTaken-key (some 27 ∷ some next_ch ∷ input) (27 ∷ next_ch % 256 ∷ bytes_before_err input) seq h
      (record {
        bytes = (omega arith, (ground arith, bytes_before_err-AreBytes input));
        some_byte = omega arith;
        short = omega arith;
      })

key_sequence-IsTaken :
    (input : Input) (seq : List ℕ) → key_sequence input ≡ sequence seq → IsTaken input seq
key_sequence-IsTaken [] seq h = cc
key_sequence-IsTaken (none ∷ input) seq h = cc
key_sequence-IsTaken (some ch ∷ input) seq h = elim (Bool-cases (ch == 27)) [
  | inl escape ↦
      let taken = after_escape-IsTaken input seq (rw escape at h) in
      record { bytes = taken.bytes; some_byte = taken.some_byte; short = taken.short }
  | inr other ↦ elim (Bool-cases (leb ch 255)) [
    | inl byte ↦
        let rest = length-bytes_before_err input in
        IsTaken-key (some ch ∷ input) (ch ∷ bytes_before_err input) seq (rw (other, byte) at h)
          (record {
            bytes = (ground arith, bytes_before_err-AreBytes input);
            some_byte = omega arith;
            short = omega arith;
          })
    | inr beyond ↦ (let clash : cancelled ≡ sequence seq = rw (other, beyond) at h in cc)
  ]
]

pub capture-IsTaken :
    (input : Input) (seq : List ℕ) → (capture_sequence input).0 ≡ sequence seq → IsTaken input seq
capture-IsTaken input seq h = key_sequence-IsTaken input seq (sym (capture_sequence_lem input) ∙ h)

escape-cases :
    (input : Input)
    → (after_escape input ≡ cancelled) ⊎ ((seq : List ℕ) × (after_escape input ≡ sequence seq))
escape-cases [] = inl refl
escape-cases (none ∷ input) = inl refl
escape-cases (some next_ch ∷ input) = inr (27 ∷ next_ch % 256 ∷ bytes_before_err input, refl)

key_sequence-cases :
    (input : Input)
    → (key_sequence input ≡ cancelled) ⊎ ((seq : List ℕ) × (key_sequence input ≡ sequence seq))
key_sequence-cases [] = inl refl
key_sequence-cases (none ∷ input) = inl refl
key_sequence-cases (some ch ∷ input) = elim (Bool-cases (ch == 27)) [
  | inl escape ↦ rw escape (escape-cases input)
  | inr other ↦ elim (Bool-cases (leb ch 255)) [
    | inl byte ↦ inr (ch ∷ bytes_before_err input, rw (other, byte) refl)
    | inr beyond ↦ inl (rw (other, beyond) refl)
  ]
]

pub capture-cases :
    (input : Input)
    → ((capture_sequence input).0 ≡ cancelled)
      ⊎ ((seq : List ℕ) × ((capture_sequence input).0 ≡ sequence seq) × IsTaken input seq)
capture-cases input = elim (key_sequence-cases input) [
  | inl none_taken ↦ inl (capture_sequence_lem input ∙ none_taken)
  | inr (seq, taken) ↦
      let e = capture_sequence_lem input ∙ taken in inr (seq, e, capture-IsTaken input seq e)
]
