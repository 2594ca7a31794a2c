-- ===== src/Attachments/Receiving.antt =====
-- The receiving loop of app/infrastructure/attachments/clamav_scanner.py.
use mathlib.Core.List.{append_assoc}
use enterprise_communication.Prelude.{
  ℕ, zero, suc, ◌-◌, ◌≤◌, ◌<◌, ◌≡◌, refl, sym, ap, ◌∙◌, false, ◌||◌, some, List, [], ◌∷◌, ◌++◌, ltb,
  length, take, drop, arith, length-append, Bool-cases, inl, inr, min,
}
use enterprise_communication.Text.{is_empty}
use enterprise_communication.Text.Parts.{ends_with}
use enterprise_communication.Attachments.Clamd.{Bytes, recv_loop, recv_bounded, received, left}
use enterprise_communication.Attachments.Framing.{length-take, take-append-drop}

-- All that the daemon sends
abbrev pub joined : List Bytes → Bytes
joined [] = []
joined (piece ∷ pieces) = piece ++ joined pieces

take_all : (n : ℕ) (xs : Bytes) → length xs ≤ n → take n xs ≡ xs
take_all zero [] h = refl
take_all zero (x ∷ xs) h = absurd (omega arith)
take_all (suc n) [] h = refl
take_all (suc n) (x ∷ xs) h = ap (λ ys. x ∷ ys) (take_all n xs (omega arith))

received-append-left :
    (size : ℕ) (pieces : List Bytes)
    → received size pieces ++ joined (left size pieces) ≡ joined pieces
received-append-left size [] = refl
received-append-left size (piece ∷ pieces) = elim (Bool-cases (ltb size (length piece))) [
  | inl long ↦ rw long (
      sym (append_assoc (take size piece) (drop size piece) (joined pieces))
      ∙ ap (λ xs. xs ++ joined pieces) (take-append-drop size piece))
  | inr short ↦ rw short (ap (λ xs. xs ++ joined pieces) (take_all size piece (ground arith)))
]

length-received : (size : ℕ) (pieces : List Bytes) → length (received size pieces) ≤ size
length-received size [] = omega arith
length-received size (piece ∷ pieces) = omega (arith, length-take size piece)

not_empty : (xs : Bytes) → is_empty xs ≡ false → 0 < length xs
not_empty [] h = absurd (cc)
not_empty (x ∷ xs) h = omega arith

-- A part of what the daemon sends, from its start
pub record IsReceived (limit : ℕ) (sent result : Bytes) : Type 0 where
  pub rest : Bytes
  pub prefix : result ++ rest ≡ sent
  pub size : length result ≤ limit

recv_loop-IsReceived :
    (fuel limit : ℕ) (so_far : Bytes) (pieces : List Bytes)
    → limit - length so_far < fuel
    → length so_far ≤ limit
    → (result : Bytes) × (recv_loop fuel limit so_far pieces ≡ some result)
      × IsReceived limit (so_far ++ joined pieces) result
unfolding recv_loop
recv_loop-IsReceived zero limit so_far pieces enough within = absurd (omega arith)
recv_loop-IsReceived (suc fuel) limit so_far pieces enough within =
    let size = min 256 (limit - length so_far) in
    let piece = received size pieces in
    let bound = length-received size pieces in
    let longer = length-append so_far piece in
    let whole : (so_far ++ piece) ++ joined (left size pieces) ≡ so_far ++ joined pieces =
      append_assoc so_far piece (joined (left size pieces))
      ∙ ap (λ xs. so_far ++ xs) (received-append-left size pieces) in
    elim (Bool-cases (ltb (length so_far) limit)) [
      | inr full ↦
          (so_far, rw full refl, record { rest = joined pieces; prefix = refl; size = within })
      | inl room ↦ elim (Bool-cases (is_empty piece)) [
        | inl ended ↦ (
          so_far,
          rw (room, ended) refl,
          record { rest = joined pieces; prefix = refl; size = within },
        )
        | inr some_byte ↦
            elim (Bool-cases (ends_with (0 ∷ []) piece || ends_with (10 ∷ []) piece)) [
              | inl line ↦ (
                so_far ++ piece,
                rw (room, some_byte, line) refl,
                record {
                  rest = joined (left size pieces);
                  prefix = whole;
                  size = omega (arith, longer, bound);
                },
              )
              | inr more ↦
                  let (result, found, good) =
                    recv_loop-IsReceived fuel limit (so_far ++ piece) (left size pieces)
                      (omega (arith, longer, not_empty piece some_byte))
                      (omega (arith, longer, bound)) in
                  (
                    result,
                    rw (room, some_byte, more) found,
                    record { rest = good.rest; prefix = good.prefix ∙ whole; size = good.size },
                  )
            ]
      ]
    ]

-- The receiving loop ends within one round more than its limit, with a part of what the daemon
-- sends, from its start, that is within the limit.
pub recv_bounded-IsReceived :
    (limit : ℕ) (pieces : List Bytes)
    → (result : Bytes) × (recv_bounded limit pieces ≡ some result)
      × IsReceived limit (joined pieces) result
unfolding recv_bounded
recv_bounded-IsReceived limit pieces =
    let (result, found, good) =
      recv_loop-IsReceived (suc limit) limit [] pieces (omega arith) (omega arith) in
    (result, rw found (ap some (take_all limit result good.size)), good)
