-- ===== src/Client/Contract.antt =====
-- client/src/zksync_contract.rs: the withdrawals in the call that commits batches on L1. Bytes are
-- numbers below 256; a `usize` has 64 bits, which no sum here reaches.
pub mod Framing
pub mod Logs
pub mod Messages
pub mod Calls
pub mod Agreement
use zksync_withdrawal_finali.Common.{
  ℕ, zero, suc, ◌+◌, ◌-◌, ◌*◌, ◌%◌, ◌^◌, Bool, true, false, not, ◌&&◌, Option, none, some, List, [],
  ◌∷◌, ◌++◌, length, take, leb, ltb, ◌==◌, if◌then◌else◌, Outcome, ok, err, panic, ◌>>=◌,
}
use zksync_withdrawal_finali.Client.{eth_token_address}

pub record L2ToL1Event : Type 0 where
  pub token : ℕ
  pub to : ℕ
  pub amount : ℕ
  pub l1_block_number : ℕ
  pub l2_block_number : ℕ
  pub tx_number_in_block : ℕ

pub data AbiError : Type 0 where
  invalid_data : AbiError

-- Of the code generated from client/src/contracts/IZkSync.json.
pub record L2Log : Type 0 where
  pub l_2_shard_id : ℕ
  pub is_service : Bool
  pub tx_number_in_batch : ℕ
  pub sender : ℕ
  pub key : ℕ
  pub value : ℕ

-- The fields that are read of the batches of a `CommitBatchesCall`.
pub record BatchData : Type 0 where
  pub batch_number : ℕ
  pub total_l2_to_l1_pubdata : List ℕ

abbrev pub l1_messenger_address : ℕ
l1_messenger_address = 0x8008

abbrev pub l2_to_l1_log_serialized_size : ℕ
l2_to_l1_log_serialized_size = 88

abbrev pub drop {ℓ} : {A : Type ℓ} → ℕ → List A → List A
drop zero xs = xs
drop (suc n) [] = []
drop (suc n) (x ∷ xs) = drop n xs

abbrev pub part : ℕ → ℕ → List ℕ → List ℕ
part from to bytes = take (to - from) (drop from bytes)

-- `&bytes[from..to]`
abbrev pub slice : ℕ → ℕ → List ℕ → Outcome AbiError (List ℕ)
slice from to bytes =
    if leb from to && leb to (length bytes) then ok (part from to bytes) else panic

-- The first byte is the highest.
abbrev be_bytes_after : ℕ → List ℕ → ℕ
be_bytes_after high [] = high
be_bytes_after high (b ∷ bs) = be_bytes_after (high * 256 + b) bs

abbrev pub from_be_bytes : List ℕ → ℕ
from_be_bytes bytes = be_bytes_after 0 bytes

abbrev pub equal_bytes : List ℕ → List ℕ → Bool
equal_bytes [] [] = true
equal_bytes (a ∷ as') (b ∷ bs) = a == b && equal_bytes as' bs
equal_bytes [] (b ∷ bs) = false
equal_bytes (a ∷ as') [] = false

unfoldable pub log_of : List ℕ → L2Log
log_of bytes = record {
  l_2_shard_id = from_be_bytes (part 0 1 bytes);
  is_service = not (from_be_bytes (part 1 2 bytes) == 0);
  tx_number_in_batch = from_be_bytes (part 2 4 bytes);
  sender = from_be_bytes (part 4 24 bytes);
  key = from_be_bytes (part 24 56 bytes);
  value = from_be_bytes (part 56 88 bytes);
}

-- `L2LogCompresed::decode`
unfoldable pub decode : List ℕ → Outcome AbiError L2Log
decode bytes = if ltb (length bytes) 88 then err invalid_data else ok (log_of bytes)

abbrev pub unwrap : {A : Type 0} → Outcome AbiError A → Outcome AbiError A
unwrap (ok a) = ok a
unwrap (err e) = panic
unwrap panic = panic

abbrev pub is_from_messenger : L2Log → Bool
is_from_messenger log = log.sender == l1_messenger_address

-- The logs of the messenger from the `i`-th on, each with the position of its message.
unfoldable pub read_logs : List ℕ → ℕ → ℕ → ℕ → Outcome AbiError (List (L2Log × ℕ))
read_logs logs zero i current_message = ok []
read_logs logs (suc count) i current_message = do
  let offset = i * l2_to_l1_log_serialized_size
  bytes ← slice offset (offset + l2_to_l1_log_serialized_size) logs
  log_entry ← unwrap (decode bytes)
  if is_from_messenger log_entry
      then (do
        rest ← read_logs logs count (i + 1) (current_message + 1)
        ok ((log_entry, current_message) ∷ rest))
      else read_logs logs count (i + 1) current_message

abbrev pub event : ℕ → ℕ → L2Log → ℕ → ℕ → ℕ → L2ToL1Event
event l1_block_number batch_number log_entry token to amount = record {
  token = token;
  to = to;
  amount = amount;
  l1_block_number = l1_block_number;
  l2_block_number = batch_number;
  tx_number_in_block = log_entry.tx_number_in_batch;
}

-- `selector == message[..4] && message.len() >= least`
abbrev pub is_call : List ℕ → ℕ → List ℕ → Outcome AbiError Bool
is_call selector least message = do
  start ← slice 0 4 message
  ok (equal_bytes selector start && leb least (length message))

-- The last 20 bytes of the key.
abbrev pub message_sender : L2Log → ℕ
message_sender log_entry = log_entry.key % 2 ^ 160

-- The selectors of `finalizeEthWithdrawal` and `finalizeWithdrawal`, which the generated code has.
module _ (finalize_eth_withdrawal finalize_withdrawal : List ℕ) (l2_erc20_bridge_addr : ℕ)
    (l1_block_number : ℕ) where
  unfoldable pub eth_event : ℕ → L2Log → List ℕ → Outcome AbiError (List L2ToL1Event)
  eth_event batch_number log_entry message =
      if message_sender log_entry == eth_token_address
      then (do
        calls ← is_call finalize_eth_withdrawal 56 message
        if calls
            then (do
              to ← slice 4 24 message
              amount ← slice 24 56 message
              ok (
                  event l1_block_number batch_number log_entry eth_token_address (from_be_bytes to)
                    (from_be_bytes amount)
                  ∷ []))
            else ok [])
      else ok []

  unfoldable pub erc20_event : ℕ → L2Log → List ℕ → Outcome AbiError (List L2ToL1Event)
  erc20_event batch_number log_entry message =
      if message_sender log_entry == l2_erc20_bridge_addr
      then (do
        calls ← is_call finalize_withdrawal 68 message
        if calls
            then (do
              to ← slice 4 24 message
              token ← slice 24 44 message
              amount ← slice 44 76 message
              ok (
                  event l1_block_number batch_number log_entry (from_be_bytes token)
                    (from_be_bytes to) (from_be_bytes amount)
                  ∷ []))
            else ok [])
      else ok []

  unfoldable pub message_events : ℕ → L2Log → List ℕ → Outcome AbiError (List L2ToL1Event)
  message_events batch_number log_entry message = do
    eth ← eth_event batch_number log_entry message
    erc20 ← erc20_event batch_number log_entry message
    ok (eth ++ erc20)

  -- `cursor` and `current_message`.
  abbrev pub Cursor : Type 0
  Cursor = ℕ × ℕ

  -- The inner loop, from message `i` on: it ends at the message at the position, or past the last
  -- one with the cursor moved and `current_message` as it was.
  unfoldable pub find_message :
      List ℕ → ℕ → ℕ → ℕ → ℕ → ℕ → Outcome AbiError (Option (List ℕ) × Cursor)
  find_message messages_bytes position current_message zero i cursor =
      ok (none, (cursor, current_message))
  find_message messages_bytes position current_message (suc count) i cursor = do
    length_bytes ← slice cursor (cursor + 4) messages_bytes
    let end = cursor + 4 + from_be_bytes length_bytes
    message ← slice (cursor + 4) end messages_bytes
    if ltb i position
        then find_message messages_bytes position current_message count (i + 1) end
        else (if ltb position i then panic else ok (some message, (end, i + 1)))

  abbrev pub found_events : ℕ → L2Log → Option (List ℕ) → Outcome AbiError (List L2ToL1Event)
  found_events batch_number log_entry none = ok []
  found_events batch_number log_entry (some message) = message_events batch_number log_entry message

  unfoldable pub read_messages :
      ℕ → List ℕ → ℕ → List (L2Log × ℕ) → Cursor → Outcome AbiError (List L2ToL1Event)
  read_messages batch_number messages_bytes messages_length [] at = ok []
  read_messages batch_number messages_bytes messages_length ((log_entry, position) ∷ entries) at =
      do
        found ← find_message messages_bytes position at.1 (messages_length - at.1) at.1 at.0
        events ← found_events batch_number log_entry found.0
        rest ← read_messages batch_number messages_bytes messages_length entries found.1
        ok (events ++ rest)

  -- The body of the loop over the batches.
  unfoldable pub parse_batch : BatchData → Outcome AbiError (List L2ToL1Event)
  parse_batch data' =
      let logs_pubdata = data'.total_l2_to_l1_pubdata in
      if ltb (length logs_pubdata) 4 then ok [] else (do
        let count = from_be_bytes (take 4 logs_pubdata)
        entries ← read_logs (drop 4 logs_pubdata) count 0 0
        let cursor = 4 + count * l2_to_l1_log_serialized_size
        messages_length_bytes ← slice cursor (cursor + 4) logs_pubdata
        messages_bytes ← slice (cursor + 4) (length logs_pubdata) logs_pubdata
        read_messages data'.batch_number messages_bytes (from_be_bytes messages_length_bytes)
            entries (0, 0))

  unfoldable pub parse_withdrawal_events_l1 : List BatchData → Outcome AbiError (List L2ToL1Event)
  parse_withdrawal_events_l1 [] = ok []
  parse_withdrawal_events_l1 (data' ∷ rest) = do
    events ← parse_batch data'
    others ← parse_withdrawal_events_l1 rest
    ok (events ++ others)
