-- ===== src/Attachments/Framing.antt =====
-- The scanner's reading of the frames of app/infrastructure/attachments/clamav_protocol.py.

use enterprise_communication.Prelude.{
  ℕ, zero, suc, ◌+◌, ◌*◌, ◌-◌, ◌≤◌, ◌<◌, ◌≡◌, refl, sym, ap, ◌∙◌, Bool, true, false, not, Option,
  none, some, List, [], ◌∷◌, ◌++◌, ltb, ◌==◌, if◌then◌else◌, length, take, drop, All, arith,
  Bool-cases, inl, inr, min, ==_refl, ltb→lt,
}
use enterprise_communication.Text.{is_empty}
use enterprise_communication.Attachments.Clamd.{
  Bytes, chunk_size, pack, frames_from, instream_frames, framed, terminated,
}

-- The number that a header stands for
abbrev pub unpack : Bytes → ℕ
unpack (a ∷ b ∷ c ∷ d ∷ rest) = a * 16777216 + b * 65536 + c * 256 + d
unpack _ = 0

abbrev pub onto_content : Bytes → Option Bytes → Option Bytes
onto_content body none = none
onto_content body (some rest) = some (body ++ rest)

abbrev pub none_left : List Bytes → Bool
none_left [] = true
none_left (frame ∷ frames) = false

-- The protocol: a frame is a length and that many bytes, and an empty one ends the stream.
pub unframe : List Bytes → Option Bytes
unframe [] = none
unframe (frame ∷ frames) =
    let body = drop 4 frame in
    let rest = unframe frames in
    if not (unpack frame == length body)
    then none
    else if is_empty body
    then if none_left frames then some [] else none
    else onto_content body rest

unpack-pack : (n : ℕ) (body : Bytes) → n < 4294967296 → unpack (pack n ++ body) ≡ n
unfolding pack
unpack-pack n body h = omega arith

drop-pack : (n : ℕ) (body : Bytes) → drop 4 (pack n ++ body) ≡ body
unfolding pack
drop-pack n body = refl

length-pack : (n : ℕ) (body : Bytes) → length (pack n ++ body) ≡ length body + 4
unfolding pack
length-pack n body = omega arith

pub length-take : (n : ℕ) (xs : Bytes) → length (take n xs) ≡ min n (length xs)
length-take zero xs = omega arith
length-take (suc n) [] = omega arith
length-take (suc n) (x ∷ xs) = omega (arith, length-take n xs)

pub length-drop : (n : ℕ) (xs : Bytes) → length (drop n xs) ≡ length xs - n
length-drop zero xs = omega arith
length-drop (suc n) [] = omega arith
length-drop (suc n) (x ∷ xs) = omega (arith, length-drop n xs)

pub take-append-drop : (n : ℕ) (xs : Bytes) → take n xs ++ drop n xs ≡ xs
take-append-drop zero xs = refl
take-append-drop (suc n) [] = refl
take-append-drop (suc n) (x ∷ xs) = ap (λ ys. x ∷ ys) (take-append-drop n xs)

drop_nil : (n : ℕ) → drop {A = ℕ} n [] ≡ []
drop_nil zero = refl
drop_nil (suc n) = refl

drop-drop : (m n : ℕ) (xs : Bytes) → drop n (drop m xs) ≡ drop (m + n) xs
drop-drop zero n xs = ap (λ k. drop k xs) (omega arith)
drop-drop (suc m) n [] = drop_nil n ∙ sym (drop_nil (suc m + n))
drop-drop (suc m) n (x ∷ xs) =
    drop-drop m n xs
    ∙ ap (λ k. drop k (x ∷ xs)) (let e : suc (m + n) ≡ suc m + n = omega arith in e)

drop-take-length : (n : ℕ) (xs : Bytes) → drop (length (take n xs)) xs ≡ drop n xs
drop-take-length zero xs = refl
drop-take-length (suc n) [] = refl
drop-take-length (suc n) (x ∷ xs) = drop-take-length n xs

length_zero : (xs : Bytes) → length xs ≡ 0 → xs ≡ []
length_zero [] h = refl
length_zero (x ∷ xs) h = absurd (omega arith)

unframe-terminator : unframe (pack 0 ∷ []) ≡ some []
unfolding unframe pack
unframe-terminator = refl

unframe-frame :
    (x : ℕ) (body : Bytes) (frames : List Bytes)
    → length (x ∷ body) < 4294967296
    → unframe ((pack (length (x ∷ body)) ++ x ∷ body) ∷ frames)
      ≡ onto_content (x ∷ body) (unframe frames)
unfolding unframe
unframe-frame x body frames small =
    rw
      (
        drop-pack (length (x ∷ body)) (x ∷ body),
        unpack-pack (length (x ∷ body)) (x ∷ body) small,
        ==_refl (length (x ∷ body)),
      )
      refl

-- The next chunk is not empty, and what it leaves is shorter.
chunk_bounds :
    (content : Bytes) (offset : ℕ)
    → offset < length content
    → let chunk = take chunk_size (drop offset content) in
      (0 < length chunk) × (length chunk ≤ chunk_size) × (offset + length chunk ≤ length content)
chunk_bounds content offset h =
    omega (arith, length-take chunk_size (drop offset content), length-drop offset content)

unframe-chunk :
    (chunk : Bytes) (frames : List Bytes)
    → 0 < length chunk
    → length chunk ≤ chunk_size
    → unframe ((pack (length chunk) ++ chunk) ∷ frames) ≡ onto_content chunk (unframe frames)
unframe-chunk [] frames some_byte small = absurd (omega arith)
unframe-chunk (x ∷ body) frames some_byte small = unframe-frame x body frames (omega arith)

chunk-rest :
    (content : Bytes) (offset : ℕ)
    → let chunk = take chunk_size (drop offset content) in
      chunk ++ drop (offset + length chunk) content ≡ drop offset content
chunk-rest content offset =
    let chunk = take chunk_size (drop offset content) in
    rw (← (drop-drop offset (length chunk) content)) (
      rw (drop-take-length chunk_size (drop offset content))
        (take-append-drop chunk_size (drop offset content)))

not_below : (a b : ℕ) → ltb a b ≡ false → b ≤ a
not_below a b h = ground arith

not_above : (a b : ℕ) → b ≤ a → ltb a b ≡ false
not_above a b h = ground arith

-- Frames that the protocol allows for a content
pub record IsFraming (content : Bytes) (frames : List Bytes) : Type 0 where
  pub meaning : unframe (frames ++ pack 0 ∷ []) ≡ some content
  pub size : All (λ (frame : Bytes). length frame ≤ chunk_size + 4) frames

frames_from-IsFraming :
    (fuel : ℕ) (content : Bytes) (offset : ℕ)
    → length content - offset < fuel
    → offset ≤ length content
    → (frames : List Bytes) × (frames_from fuel content offset ≡ some frames)
      × IsFraming (drop offset content) frames
unfolding frames_from
frames_from-IsFraming zero content offset enough within = absurd (omega arith)
frames_from-IsFraming (suc fuel) content offset enough within =
    elim (Bool-cases (ltb offset (length content))) [
      | inr done ↦ (
        [],
        rw done refl,
        record {
          meaning =
              unframe-terminator
              ∙ ap some (
                  sym (
                    length_zero (drop offset content) (
                      omega (
                        arith,
                        length-drop offset content,
                        not_below offset (length content) done,
                      ))));
          size = tt;
        },
      )
      | inl more ↦
          let chunk = take chunk_size (drop offset content) in
          let bounds = chunk_bounds content offset (ltb→lt offset (length content) more) in
          let (frames, found, good) =
            frames_from-IsFraming fuel content (offset + length chunk) (omega (arith, bounds))
              bounds.2 in
          (
            (pack (length chunk) ++ chunk) ∷ frames,
            rw (more, found) refl,
            record {
              meaning =
                  unframe-chunk chunk (frames ++ pack 0 ∷ []) bounds.0 bounds.1
                  ∙ rw good.meaning (ap some (chunk-rest content offset));
              size = (omega (arith, length-pack (length chunk) chunk, bounds), good.size);
            },
          )
    ]

-- For a content within the limit, instream_frames returns frames of at most a chunk and a header,
-- and a terminator, which a reader of the protocol puts together to the content.
pub instream_frames-IsFraming :
    (limit : ℕ) (content : Bytes)
    → length content ≤ limit
    → (frames : List Bytes) × (instream_frames limit content ≡ framed (frames ++ pack 0 ∷ []))
      × IsFraming content frames
unfolding instream_frames terminated
instream_frames-IsFraming limit content within =
    let (frames, found, good) =
      frames_from-IsFraming (suc (length content)) content 0 (omega arith) (omega arith) in
    let small : ltb limit (length content) ≡ false = not_above limit (length content) within in
    (frames, rw (small, found) refl, good)
