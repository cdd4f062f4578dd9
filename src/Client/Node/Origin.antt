-- ===== src/Client/Node/Origin.antt =====
-- client/src/lib.rs: where the parameters of a finalization come from.
use zksync_withdrawal_finali.Common.{
  ℕ, suc, ◌≡◌, refl, sym, ap, ◌∙◌, ◌⊎◌, inl, inr, Option, none, some, List, Outcome, ok, err, panic,
  expect-ok,
}
use zksync_withdrawal_finali.Common.Actions.{lift}
use zksync_withdrawal_finali.Common.Actions.Hoare.{
  Post, Given, Triple, Triple-bind, Triple-bind_given, Triple-pure, Triple-lift, Triple-imp,
}
use zksync_withdrawal_finali.Client.{WithdrawalParams}
use zksync_withdrawal_finali.Client.Errors.{ClientError}
use zksync_withdrawal_finali.Client.Types.{L2ToL1LogProof, Log, raw_log, TransactionReceipt}
use zksync_withdrawal_finali.Client.Node
use zksync_withdrawal_finali.Client.Node.{
  WithdrawalEvents, WithdrawalInitiatedFilter, Abi, Env, State, M, call, cached, insert, ok_or, nth,
  nth_where, keep_some, position, bridge_burn, withdrawal, zks_get_transaction_receipt,
  get_log_proof,
}
use zksync_withdrawal_finali.Client.Node.Messages.{
  get_l1_bridge_burn_message_keccak, get_l1_withdraw_message_keccak, is_withdrawal_log,
  is_message_log, second_topic, as_message,
}
use zksync_withdrawal_finali.Client.Node.Params.{
  message_params, if_not_cached, l1_address_of, l2_to_l1_message_hash, finalize_withdrawal_params,
}
use zksync_withdrawal_finali.Client.Node.Places.{IsFirstWith, ok_or-ok, position-IsFirstWith}

module _ (abi : Abi) (env : Env) where
  -- The L1 address of a token, from the cache or from the token's contract.
  abbrev pub IsL1Address : List (ℕ × ℕ) → ℕ → ℕ → Type 0
  IsL1Address addrs token a =
      (Node.get token addrs ≡ some a)
      ⊎ ((n : ℕ) × (answer : List ℕ) × ((env.l1_address n token ≡ ok answer)
            × (abi.decode_address answer ≡ ok a)))

  -- The hash of the message of the withdrawal's own event.
  abbrev pub IsMessageHash :
      List (ℕ × ℕ) → ℕ → TransactionReceipt → Log → WithdrawalEvents → ℕ → Type 0
  IsMessageHash addrs index receipt log (withdrawal w) h =
      get_l1_withdraw_message_keccak abi w ≡ ok h
  IsMessageHash addrs index receipt log (bridge_burn b) h =
      (l1_token : ℕ) × (filter : WithdrawalInitiatedFilter) × (IsL1Address addrs log.address
          l1_token
        × (nth index (keep_some (λ log. abi.decode_withdrawal_initiated (raw_log log)) receipt.logs)
            ≡ some filter)
        × (get_l1_bridge_burn_message_keccak abi b.amount filter.l_1_receiver l1_token ≡ ok h))

  -- The parameters have the message log of the index, and the proof of the log from L2 to L1 at the
  -- place.
  pub record IsOfMessage (hash index : ℕ) (receipt : TransactionReceipt) (place : ℕ)
      (p : WithdrawalParams) : Type 0 where
    pub sent_log : Log
    pub is_sent_log :
        nth_where {E = ClientError} (is_message_log abi) index receipt.logs ≡ ok (some sent_log)
    pub is_message : as_message (abi.decode_bytes sent_log.data_bytes) ≡ ok p.message
    pub is_sender : second_topic sent_log ≡ some p.sender
    pub is_batch : sent_log.l1_batch_number ≡ some p.l1_batch_number
    pub proof : L2ToL1LogProof
    pub proved : (n : ℕ) × (env.zks_get_l2_to_l1_log_proof n hash (some place) ≡ ok (some proof))
    pub is_index : p.l2_message_index ≡ proof.id
    pub is_proof : p.proof ≡ proof.proof

  -- The parameters are those of withdrawal number `index` of the transaction, whose own event gives
  -- the value to look for.
  pub record IsOf (addrs : List (ℕ × ℕ)) (hash index : ℕ) (p : WithdrawalParams) : Type 0 where
    pub receipt : TransactionReceipt
    pub answered : (n : ℕ) × (env.eth_get_transaction_receipt n hash ≡ ok receipt)
    pub log : Log
    pub is_log :
        nth_where {E = ClientError} (is_withdrawal_log abi) index receipt.logs ≡ ok (some log)
    pub event : WithdrawalEvents
    pub decoded : abi.decode_withdrawal_events (raw_log log) ≡ ok event
    pub value : ℕ
    pub hashed : IsMessageHash addrs index receipt log event value
    pub place : ℕ
    pub is_first : IsFirstWith value receipt.l2_to_l1_logs place
    pub of_message : IsOfMessage hash index receipt place p

  abbrev Any : State → Type 0
  Any s = Unit

  module _ {A : Type 0} (P : List (ℕ × ℕ) → Type 0) where
    Post-answered :
        (answer : ℕ → Outcome ClientError A) (n : ℕ) (o : Outcome ClientError A) (s : State)
        → answer n ≡ o
        → P s.token_addrs
        → Post (Given (λ s. P s.token_addrs) (λ a. (n : ℕ) × (answer n ≡ ok a))) Any (o, s)
    Post-answered answer n (ok a) s e p = (p, (n, e))
    Post-answered answer n (err x) s e p = tt
    Post-answered answer n panic s e p = tt

    Triple-answered :
        (answer : ℕ → Outcome ClientError A)
        → Triple
            (λ s. P s.token_addrs)
            (call answer)
            (Given (λ s. P s.token_addrs) (λ a. (n : ℕ) × (answer n ≡ ok a)))
            Any
    unfolding call
    Triple-answered answer = record {
      at = λ s p.
          Post-answered answer s.calls (answer s.calls) (record s { calls = suc s.calls }) refl p;
    }

    Triple-returned :
        (o : Outcome ClientError A)
        → Triple (λ s. P s.token_addrs) (lift o) (Given (λ s. P s.token_addrs) (λ a. o ≡ ok a)) Any
    Triple-returned o = Triple-lift o (λ a s e p. (p, e)) (λ s p. tt)

  abbrev Nothing : List (ℕ × ℕ) → Type 0
  Nothing held = Unit

  module _ (addrs : List (ℕ × ℕ)) where
    abbrev With : List (ℕ × ℕ) → Type 0
    With held = held ≡ addrs

    if_not_cached-IsL1Address :
        (token : ℕ) (hit : Option ℕ)
        → Node.get token addrs ≡ hit
        → Triple Any (if_not_cached abi env token hit) (Given Any (IsL1Address addrs token)) Any
    unfolding insert
    if_not_cached-IsL1Address token (some a) e = Triple-pure a (λ s p. (tt, inl e))
    if_not_cached-IsL1Address token none e =
        Triple-bind_given _ _ (Triple-answered Nothing _) (λ answer asked.
          Triple-bind_given _ _ (Triple-returned Nothing _) (λ a decoded.
            Triple-bind {Q = λ t. Any} _ _ record { at = λ s p. tt }
              (λ t. Triple-pure a (λ s p. (tt, inr (asked.0, answer, (asked.1, decoded)))))))

    l1_address_of-IsL1Address :
        (token : ℕ)
        → Triple
            (λ s. With s.token_addrs)
            (l1_address_of abi env token)
            (Given Any (IsL1Address addrs token))
            Any
    unfolding l1_address_of cached
    l1_address_of-IsL1Address token =
        Triple-bind_given {P' = Any} {F = λ hit. Node.get token addrs ≡ hit} _ _
          record { at = λ s p. (tt, ap (λ held. Node.get token held) (sym p)) }
          (if_not_cached-IsL1Address token)

    message_hash-IsMessageHash :
        (hash index : ℕ) (receipt : TransactionReceipt) (log : Log) (event : WithdrawalEvents)
        → Triple
            (λ s. With s.token_addrs)
            (l2_to_l1_message_hash abi env hash index receipt log event)
            (Given Any (IsMessageHash addrs index receipt log event))
            Any
    unfolding l2_to_l1_message_hash
    message_hash-IsMessageHash hash index receipt log (withdrawal w) =
        Triple-imp (λ s p. tt) (λ a s g. g) (λ s p. p) (Triple-returned Nothing _)
    message_hash-IsMessageHash hash index receipt log (bridge_burn b) =
        Triple-bind_given _ _ (l1_address_of-IsL1Address log.address) (λ l1_token known.
          Triple-bind_given _ _ (Triple-returned Nothing _) (λ filter initiated.
            Triple-imp (λ s p. tt)
              (λ h s g. (tt, (l1_token, filter, (known, ok_or-ok _ _ filter initiated, g.1))))
              (λ s p. p) (Triple-returned Nothing _)))

  message_params-IsOfMessage :
      (hash index : ℕ) (receipt : TransactionReceipt) (place : ℕ)
      → Triple Any
          (message_params abi env hash index receipt place)
          (λ found u.
            (p : WithdrawalParams) × (found ≡ some p) × IsOfMessage hash index receipt place p)
          Any
  unfolding message_params get_log_proof
  message_params-IsOfMessage hash index receipt place =
      Triple-bind_given _ _ (Triple-returned Nothing _) (λ sent is_sent_log.
        Triple-bind_given _ _ (Triple-returned Nothing _) (λ sent_log some_sent.
          Triple-bind_given _ _ (Triple-returned Nothing _) (λ sender is_sender.
            Triple-bind_given _ _ (Triple-answered Nothing _) (λ answer proved.
              Triple-bind_given _ _ (Triple-returned Nothing _) (λ proof some_proof.
                Triple-bind_given _ _ (Triple-returned Nothing _) (λ message is_message.
                  Triple-bind_given _ _ (Triple-returned Nothing _) (λ l2_block is_block.
                    Triple-bind_given _ _ (Triple-returned Nothing _) (λ l1_batch is_batch.
                      Triple-bind_given _ _ (Triple-returned Nothing _) (λ tx_id is_id.
                        Triple-bind_given _ _ (Triple-returned Nothing _) (λ number is_number.
                          Triple-pure _ (λ u p. (
                            _,
                            refl,
                            record {
                              sent_log = sent_log;
                              is_sent_log =
                                  is_sent_log ∙ ap (λ o. ok o) (ok_or-ok _ sent sent_log some_sent);
                              is_message = is_message;
                              is_sender = expect-ok _ sender is_sender;
                              is_batch = expect-ok _ l1_batch is_batch;
                              proof = proof;
                              proved = (
                                proved.0,
                                proved.1 ∙ ap (λ o. ok o) (expect-ok answer proof some_proof),
                              );
                              is_index = refl;
                              is_proof = refl;
                            },
                          ))))))))))))

  -- Whatever `finalize_withdrawal_params` returns for an index, it is parameters: the message, the
  -- sender and the batch are those of the message log of that index in the receipt that the node
  -- answered; the message index and the proof are what the node answered for the first L2 to L1 log
  -- whose value is the hash of the message rebuilt from the event of the withdrawal log of that index,
  -- which for an ERC20 withdrawal takes the receiver from the WithdrawalInitiated event of that index,
  -- and the L1 address of the token from the cache or from the token's contract.
  pub finalize_withdrawal_params-IsOf :
      (hash index : ℕ) (s : State)
      → Post
          (λ found u. (p : WithdrawalParams) × (found ≡ some p) × IsOf s.token_addrs hash index p)
          (λ u. Unit {0})
          (finalize_withdrawal_params abi env hash index s)
  unfolding finalize_withdrawal_params zks_get_transaction_receipt
  finalize_withdrawal_params-IsOf hash index s =
      (Triple-bind_given _ _ (Triple-answered (With s.token_addrs) _) (λ receipt answered.
          Triple-bind_given _ _ (Triple-returned (With s.token_addrs) _) (λ found is_log.
            Triple-bind_given _ _ (Triple-returned (With s.token_addrs) _) (λ log some_log.
              Triple-bind_given _ _ (Triple-returned (With s.token_addrs) _) (λ event decoded.
                Triple-bind_given _ _
                  (message_hash-IsMessageHash s.token_addrs hash index receipt log event)
                  (λ value hashed.
                    Triple-bind_given _ _ (Triple-returned Nothing _) (λ place placed.
                      Triple-imp (λ u p. p)
                        (λ r u m. (
                          m.0,
                          m.1,
                          record {
                            receipt = receipt;
                            answered = answered;
                            log = log;
                            is_log = is_log ∙ ap (λ o. ok o) (ok_or-ok _ found log some_log);
                            event = event;
                            decoded = decoded;
                            value = value;
                            hashed = hashed;
                            place = place;
                            is_first =
                                position-IsFirstWith value receipt.l2_to_l1_logs place
                                  (ok_or-ok _ _ place placed);
                            of_message = m.2;
                          },
                        ))
                        (λ u p. p) (message_params-IsOfMessage hash index receipt place)))))))).at
        s refl
