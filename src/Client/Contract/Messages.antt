-- ===== src/Client/Contract/Messages.antt =====
-- client/src/zksync_contract.rs: what the parser makes of a batch that is encoded as it expects.
use mathlib.Core.List.{append_assoc, append-nil}
use zksync_withdrawal_finali.Common.{
  arith, ℕ, suc, ◌+◌, ◌-◌, ◌*◌, ◌≤◌, ◌≡◌, refl, sym, ap, ◌∙◌, subst, false, some, List, [], ◌∷◌,
  ◌++◌, length, length-append, take, map, filter, All, ltb, Outcome, ok, ◌>>=◌,
}
use zksync_withdrawal_finali.Client.Contract.{
  AbiError, L2Log, L2ToL1Event, drop, slice, from_be_bytes, log_of, is_from_messenger, read_logs,
  find_message, message_events, read_messages, parse_batch,
}
use zksync_withdrawal_finali.Client.Contract.Framing.{
  to_be_bytes, length-to_be_bytes, slice-middle, drop-at, take-at,
}
use zksync_withdrawal_finali.Client.Contract.Logs.{
  catenate, encode_messages, encode_pubdata, IsLog, IsShort, numbered, u32-round,
  read_logs-numbered, same-not-below, not-below, length-catenate,
}

module _ (eth erc20 : List ℕ) (bridge l1_block_number batch_number : ℕ) where
  -- Each log of the messenger with its message, in order.
  abbrev pub events_of : List L2Log → List (List ℕ) → Outcome AbiError (List L2ToL1Event)
  events_of [] messages = ok []
  events_of (log ∷ logs) [] = ok []
  events_of (log ∷ logs) (message ∷ messages) = do
    events ← message_events eth erc20 bridge l1_block_number batch_number log message
    rest ← events_of logs messages
    ok (events ++ rest)

  find_message-here :
      (whole m : List ℕ) (position count cursor : ℕ)
      → IsShort m
      → slice cursor (cursor + 4) whole ≡ ok (to_be_bytes 4 (length m))
      → slice (cursor + 4) (cursor + 4 + length m) whole ≡ ok m
      → find_message eth erc20 bridge l1_block_number whole position position
          (suc count)
          position
          cursor
        ≡ ok (some m, (cursor + 4 + length m, position + 1))
  unfolding find_message
  find_message-here whole m position count cursor s e f =
      rw (e, u32-round (length m) s, f, same-not-below position) refl

  read_messages-step :
      (whole m : List ℕ) (log : L2Log) (logs : List L2Log) (ms : List (List ℕ))
      (position cursor : ℕ)
      → IsShort m
      → slice cursor (cursor + 4) whole ≡ ok (to_be_bytes 4 (length m))
      → slice (cursor + 4) (cursor + 4 + length m) whole ≡ ok m
      → read_messages eth erc20 bridge l1_block_number batch_number whole
          (position + suc (length ms))
          (numbered (position + 1) logs)
          (cursor + 4 + length m, position + 1)
        ≡ events_of logs ms
      → read_messages eth erc20 bridge l1_block_number batch_number whole
          (position + suc (length ms))
          (numbered position (log ∷ logs))
          (cursor, position)
        ≡ events_of (log ∷ logs) (m ∷ ms)
  unfolding read_messages
  read_messages-step whole m log logs ms position cursor s e f rest =
      rw (left, find_message-here whole m position (length ms) cursor s e f, rest) refl
    where
      left : position + suc (length ms) - position ≡ suc (length ms)
      left = omega arith

  read_messages-events_of :
      (logs : List L2Log) (messages : List (List ℕ)) (pre tail : List ℕ) (position : ℕ)
      → All IsShort messages
      → length logs ≤ length messages
      → read_messages eth erc20 bridge l1_block_number batch_number
          (pre ++ (encode_messages messages ++ tail))
          (position + length messages)
          (numbered position logs)
          (length pre, position)
        ≡ events_of logs messages
  unfolding read_messages
  read_messages-events_of [] messages pre tail position s h = refl
  read_messages-events_of (log ∷ logs) [] pre tail position s h = absurd (omega (arith, h))
  read_messages-events_of (log ∷ logs) (m ∷ ms) pre tail position (s, t) h =
      subst
        (λ list.
          read_messages eth erc20 bridge l1_block_number batch_number list
            (position + suc (length ms)) (numbered position (log ∷ logs)) (length pre, position)
          ≡ events_of (log ∷ logs) (m ∷ ms))
        (ap (λ l. pre ++ l)
          (sym (
            append_assoc size (m ++ encode_messages ms) tail
            ∙ ap (λ l. size ++ l) (append_assoc m (encode_messages ms) tail))))
        (read_messages-step (pre ++ (size ++ (m ++ later))) m log logs ms position (length pre) s
          (slice-middle (length pre) (length pre + 4) pre size (m ++ later) refl
            (omega (arith, sized)))
          (subst (λ list. slice (length pre + 4) (length pre + 4 + length m) list ≡ ok m)
            (append_assoc pre size (m ++ later))
            (slice-middle (length pre + 4) (length pre + 4 + length m) (pre ++ size) m later
              (omega (arith, length-append pre size, sized)) refl))
          (rw (moved, counted, at_end)
            (read_messages-events_of logs ms (pre ++ (size ++ m)) tail (position + 1) t
              (omega (arith, h)))))
    where
      later : List ℕ
      later = encode_messages ms ++ tail

      size : List ℕ
      size = to_be_bytes 4 (length m)

      sized : length size ≡ 4
      sized = length-to_be_bytes 4 (length m)

      moved : pre ++ (size ++ (m ++ later)) ≡ pre ++ (size ++ m) ++ later
      moved =
          sym (append_assoc pre (size ++ m) later ∙ ap (λ l. pre ++ l) (append_assoc size m later))

      counted : position + suc (length ms) ≡ position + 1 + length ms
      counted = omega arith

      at_end : length pre + 4 + length m ≡ length (pre ++ (size ++ m))
      at_end = omega (arith, length-append pre (size ++ m), length-append size m, sized)

  -- From the pubdata of a batch whose logs have 88 bytes each and which has a message for each log of
  -- the messenger, `parse_withdrawal_events_l1` reads what each of these logs says with its message,
  -- in order: the offsets that it computes are those of the encoding, whatever follows the messages.
  pub parse_batch-encode_pubdata :
      (logs messages : List (List ℕ)) (tail : List ℕ)
      → All IsLog logs
      → All IsShort messages
      → IsShort logs
      → IsShort messages
      → length (filter is_from_messenger (map log_of logs)) ≤ length messages
      → parse_batch eth erc20 bridge l1_block_number (record {
        batch_number = batch_number;
        total_l2_to_l1_pubdata = encode_pubdata logs messages tail;
      })
        ≡ events_of (filter is_from_messenger (map log_of logs)) messages
  unfolding parse_batch
  parse_batch-encode_pubdata logs messages tail a s n k h =
      rw (long, counted, read, at_count, at_messages, total)
        (read_messages-events_of (filter is_from_messenger (map log_of logs)) messages [] tail 0 s
          h)
    where
      head : List ℕ
      head = to_be_bytes 4 (length logs)

      size : List ℕ
      size = to_be_bytes 4 (length messages)

      body : List ℕ
      body = encode_messages messages ++ tail

      whole : List ℕ
      whole = encode_pubdata logs messages tail

      headed : length head ≡ 4
      headed = length-to_be_bytes 4 (length logs)

      sized : length size ≡ 4
      sized = length-to_be_bytes 4 (length messages)

      before : length (head ++ catenate logs) ≡ 4 + length logs * 88
      before = omega (arith, length-append head (catenate logs), headed, length-catenate logs a)

      regrouped : (head ++ catenate logs) ++ size ++ (body ++ []) ≡ whole
      regrouped =
          ap (λ r. (head ++ catenate logs) ++ size ++ r) (append-nil body)
          ∙ append_assoc (head ++ catenate logs) size body
          ∙ append_assoc head (catenate logs) (size ++ body)

      long : ltb (length whole) 4 ≡ false
      long =
          not-below (length whole) 4
            (omega (arith, length-append head (catenate logs ++ (size ++ body)), headed))

      counted : from_be_bytes (take 4 whole) ≡ length logs
      counted =
          ap from_be_bytes
            (take-at 4 head (catenate logs ++ (size ++ body)) (length-to_be_bytes 4 (length logs)))
          ∙ u32-round (length logs) n

      read :
          read_logs (drop 4 whole) (length logs) 0 0
          ≡ ok (numbered 0 (filter is_from_messenger (map log_of logs)))
      read =
          ap (λ l. read_logs l (length logs) 0 0)
            (drop-at 4 head (catenate logs ++ (size ++ body)) (length-to_be_bytes 4 (length logs)))
          ∙ read_logs-numbered logs [] (size ++ body) 0 0 a refl

      at_count : slice (4 + length logs * 88) (4 + length logs * 88 + 4) whole ≡ ok size
      at_count =
          subst (λ list. slice (4 + length logs * 88) (4 + length logs * 88 + 4) list ≡ ok size)
            (append_assoc head (catenate logs) (size ++ body))
            (slice-middle (4 + length logs * 88) (4 + length logs * 88 + 4) (head ++ catenate logs)
              size body before (omega (arith, sized)))

      at_messages : slice (4 + length logs * 88 + 4) (length whole) whole ≡ ok body
      at_messages =
          subst (λ list. slice (4 + length logs * 88 + 4) (length whole) list ≡ ok body) regrouped
            (slice-middle (4 + length logs * 88 + 4) (length whole)
              ((head ++ catenate logs) ++ size) body []
              (omega (arith, length-append (head ++ catenate logs) size, before, sized))
              (omega (
                arith,
                length-append head (catenate logs ++ (size ++ body)),
                length-append (catenate logs) (size ++ body),
                length-append size body,
                headed,
                sized,
                length-catenate logs a,
              )))

      total : from_be_bytes size ≡ 0 + length messages
      total = u32-round (length messages) k ∙ omega arith
