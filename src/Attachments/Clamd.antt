-- ===== src/Attachments/Clamd.antt =====
-- app/infrastructure/attachments/clamav_protocol.py: the frames that go to the malware scanner, and
-- the reading of its reply; with the receiving loop of clamav_scanner.py.
use enterprise_communication.Prelude.{
  ℕ, zero, suc, ◌+◌, ◌/◌, ◌%◌, ◌-◌, ◌^◌, Bool, ◌&&◌, ◌||◌, not, Option, none, some, List, [], ◌∷◌,
  ◌++◌, ltb, ◌==◌, if◌then◌else◌, length, take, drop, all, min,
}
use mathlib.Core.Option
use enterprise_communication.Text.{Text, text, text_eq, is_empty, strip}
use enterprise_communication.Text.Parts.{starts_with, ends_with, strip_of, first_line}

abbrev pub Bytes : Type 0
Bytes = List ℕ

abbrev pub chunk_size : ℕ
chunk_size = 8192

-- `MAX_SCAN_BYTES`
abbrev pub max_scan_bytes : ℕ
max_scan_bytes = 5242880

abbrev pub max_response_bytes : ℕ
max_response_bytes = 512

-- `struct.pack("!I", n)`, for `n` below 2 ^ 32
unfoldable pub pack : ℕ → Bytes
pack n = n / 2 ^ 24 % 256 ∷ n / 2 ^ 16 % 256 ∷ n / 2 ^ 8 % 256 ∷ n % 256 ∷ []

-- The `while` loop, with fuel; `none` means that the fuel has run out.
unfoldable pub frames_from : ℕ → Bytes → ℕ → Option (List Bytes)
unfolding pack
frames_from zero content offset = none
frames_from (suc fuel) content offset =
    let chunk = take chunk_size (drop offset content) in
    let rest = frames_from fuel content (offset + length chunk) in
    if ltb offset (length content)
    then Option.map (λ frames. (pack (length chunk) ++ chunk) ∷ frames) rest
    else some []

pub data Framing : Type 0 where
  exceeds_limit unfinished : Framing
  framed : List Bytes → Framing

unfoldable pub terminated : Option (List Bytes) → Framing
unfolding pack
terminated none = unfinished
terminated (some frames) = framed (frames ++ pack 0 ∷ [])

-- `instream_frames`: the content has no more rounds than bytes.
unfoldable pub instream_frames : ℕ → Bytes → Framing
unfolding frames_from terminated
instream_frames limit content =
    if ltb limit (length content)
    then exceeds_limit
    else terminated (frames_from (suc (length content)) content 0)

pub data AttachmentScanVerdict : Type 0 where
  clean malicious error unknown : AttachmentScanVerdict

-- The tests on the first line of a reply
abbrev verdict_of : Text → AttachmentScanVerdict
verdict_of line =
    if is_empty line || ltb 256 (length line)
    then unknown
    else if text_eq line (text "stream: OK") || text_eq line (text "OK")
    then clean
    else if starts_with (text "stream:") line && ends_with (text " FOUND") line
    then malicious
    else if ends_with (text " FOUND") line
    then malicious
    else if ends_with (text " ERROR") line || ends_with (text "ERROR") line
    then error
    else unknown

-- `text.strip(" \t\r\n\0")`
abbrev is_padding : ℕ → Bool
is_padding c = c == 32 || c == 9 || c == 13 || c == 10 || c == 0

unfoldable pub map_clamd_response : Bytes → AttachmentScanVerdict
map_clamd_response raw =
    if is_empty raw || ltb max_response_bytes (length raw)
    then unknown
    else if not (all (λ c. ltb c 128) raw)
    then unknown
    else (let cleaned = strip_of is_padding raw in
        if is_empty cleaned then unknown else verdict_of (strip (first_line cleaned)))

-- `is_pong`
unfoldable pub is_pong : Bytes → Bool
is_pong raw = text_eq (strip_of is_padding raw) (text "PONG")

-- A socket as the pieces that will arrive: `recv(size)` hands out what fits of the next one.
abbrev pub received : ℕ → List Bytes → Bytes
received size [] = []
received size (piece ∷ pieces) = take size piece

abbrev pub left : ℕ → List Bytes → List Bytes
left size [] = []
left size (piece ∷ pieces) = if ltb size (length piece) then drop size piece ∷ pieces else pieces

-- The loop of `_recv_bounded`, with fuel; `so_far` are the chunks joined.
unfoldable pub recv_loop : ℕ → ℕ → Bytes → List Bytes → Option Bytes
recv_loop zero limit so_far pieces = none
recv_loop (suc fuel) limit so_far pieces =
    let size = min 256 (limit - length so_far) in
    let piece = received size pieces in
    let rest = recv_loop fuel limit (so_far ++ piece) (left size pieces) in
    if not (ltb (length so_far) limit)
    then some so_far
    else if is_empty piece
    then some so_far
    else if ends_with (0 ∷ []) piece || ends_with (10 ∷ []) piece
    then some (so_far ++ piece)
    else rest

-- `_recv_bounded`
unfoldable pub recv_bounded : ℕ → List Bytes → Option Bytes
unfolding recv_loop
recv_bounded limit pieces = Option.map (take limit) (recv_loop (suc limit) limit [] pieces)

-- `scan`: `exchange` sends the frames and reads the reply; `none` stands for an exception.
abbrev scanned : (List Bytes → Option Bytes) → Framing → AttachmentScanVerdict
unfolding map_clamd_response
scanned exchange (framed frames) = elim (exchange frames) [
  | none ↦ error
  | some raw ↦ map_clamd_response raw
]
scanned exchange _ = error

unfoldable pub scan : (List Bytes → Option Bytes) → Bytes → AttachmentScanVerdict
unfolding instream_frames map_clamd_response
scan exchange content =
    if ltb max_scan_bytes (length content)
    then error
    else scanned exchange (instream_frames max_scan_bytes content)
