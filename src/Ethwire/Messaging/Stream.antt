-- ===== src/Ethwire/Messaging/Stream.antt =====
-- A stream of messages.
use eth_go.Common.{
  ℕ, zero, suc, ◌+◌, ◌≤◌, ◌<◌, ◌≡◌, refl, ap, ◌∙◌, arith, List, [], ◌∷◌, ◌++◌, append_assoc, map,
  false, All, length, length-append, ◌⊎◌, inl, inr, ok,
}
use eth_go.Ethwire.Messaging.{
  Msg, finished, invalid, mismatch, read_message, read_loop, read_messages, write_message,
}
use eth_go.Ethwire.Messaging.Frames.{IsSendable, normal_msg, read_message-write_message}

abbrev pub stream : List Msg → List ℕ
stream [] = []
stream (msg ∷ msgs) = write_message msg ++ stream msgs

-- Bytes without a message in front: none, too few, or without the token.
abbrev pub HasNoMessage : List ℕ → Type 0
HasNoMessage tail =
    (read_message tail ≡ ok finished)
    ⊎ ((read_message tail ≡ ok invalid) ⊎ (read_message tail ≡ ok mismatch))

nothing_read : (fuel : ℕ) → read_loop (suc fuel) [] ≡ ok ([], false)
unfolding read_loop read_message
nothing_read fuel = refl

tail_read :
    (fuel : ℕ) (tail : List ℕ)
    → HasNoMessage tail
    → read_loop (suc (suc fuel)) tail ≡ ok ([], false)
unfolding read_loop
tail_read fuel tail (inl h) = rw h refl
tail_read fuel tail (inr (inl h)) = rw h (nothing_read fuel)
tail_read fuel tail (inr (inr h)) = rw h (nothing_read fuel)

read_loop-stream :
    (fuel : ℕ) (msgs : List Msg) (tail : List ℕ)
    → All IsSendable msgs
    → HasNoMessage tail
    → length msgs + 1 < fuel
    → read_loop fuel (stream msgs ++ tail) ≡ ok (map normal_msg msgs, false)
unfolding read_loop
read_loop-stream zero msgs tail h bad lt = absurd (omega arith)
read_loop-stream (suc zero) msgs tail h bad lt = absurd (omega arith)
read_loop-stream (suc (suc fuel)) [] tail h bad lt = tail_read fuel tail bad
read_loop-stream (suc (suc fuel)) (msg ∷ msgs) tail (s, h) bad lt =
    rw
      (
        ap read_message (append_assoc (write_message msg) (stream msgs) tail)
            ∙ read_message-write_message msg s (stream msgs ++ tail),
        read_loop-stream (suc fuel) msgs tail h bad (omega arith),
      )
      refl

length-stream : (msgs : List Msg) → length msgs ≤ length (stream msgs)
unfolding write_message
length-stream [] = omega arith
length-stream (msg ∷ msgs) =
    omega (arith, length-append (write_message msg) (stream msgs), length-stream msgs)

-- Messages written by WriteMessage one after the other are read by ReadMessages in their order,
-- each with its type and the decoder's form of its data, if each has a type of one byte, items
-- that Encode does not pass over, and a form shorter than 2^32 bytes. Nothing else is read, and
-- nothing panics, where the bytes behind them are none, too few for a message or do not begin with
-- the token.
pub read_messages-stream :
    (msgs : List Msg) (tail : List ℕ)
    → All IsSendable msgs
    → HasNoMessage tail
    → read_messages (stream msgs ++ tail) ≡ ok (map normal_msg msgs, false)
unfolding read_messages
read_messages-stream msgs tail h bad =
    read_loop-stream (length (stream msgs ++ tail) + 2) msgs tail h bad
      (omega (arith, length-append (stream msgs) tail, length-stream msgs))
