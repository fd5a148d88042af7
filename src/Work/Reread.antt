-- ===== src/Work/Reread.antt =====
-- WorkFact.from_mapping after to_mapping.
use hermes_life_bridge.Prelude.{◌≡◌, refl, subst, not, String}
use hermes_life_bridge.Errors.{
  Result, ok, err, ok_inj, work_contract_error, raise_if, ◌>>=◌, >>=-eq-ok,
}
use hermes_life_bridge.Calendar.{Calendar}
use hermes_life_bridge.Store.{one_of}
use hermes_life_bridge.Work.Contract.{WorkFact, parse_fact_time}
use hermes_life_bridge.Work.Mapping.{
  FactValue, text, flag, texts, counts, other, FactMapping, keys_of, all_among, same_keys, value_of,
  work_fact_fields, read_schema, read_token, read_outcome, read_terminal, read_hash, read_refs,
  read_counters, read_time, token_field, from_mapping, to_mapping,
}
use hermes_life_bridge.Work.Roundtrip.{
  counters_of, read_schema-text, read_token-text, read_outcome-value, read_terminal-flag,
  read_hash-text, read_refs-texts, read_counters-counts,
}

-- What the rest of a chain establishes, whatever its first part returned.
after {ℓ κ μ} :
    {A : Type ℓ} {B : Type κ} (r : Result A) (k : A → Result B) (P : B → Type μ)
    → ((a : A) → r ≡ ok a → (b : B) → k a ≡ ok b → P b)
    → (b : B) → (r >>= k) ≡ ok b
    → P b
after (ok a) k P f b h = f a refl b h
after (err e) k P f b h = absurd cc

module _ (calendar : Calendar) where
  -- Every field passes its check as it is written.
  pub record IsReadable (f : WorkFact) : Type 0 where
    pub schema :
        read_schema "work_fact.v1" "unsupported_work_fact_schema" (text f.schema_version)
        ≡ ok f.schema_version
    pub fact :
        read_token "fact_id" "fact_id_must_be_bounded_opaque_token" (text f.fact_id) ≡ ok f.fact_id
    pub key :
        read_token "idempotency_key" "idempotency_key_must_be_bounded_opaque_token"
          (text f.idempotency_key)
        ≡ ok f.idempotency_key
    pub item :
        read_token "work_item_id" "work_item_id_must_be_bounded_opaque_token" (text f.work_item_id)
        ≡ ok f.work_item_id
    pub session :
        read_token "session_id" "session_id_must_be_bounded_opaque_token" (text f.session_id)
        ≡ ok f.session_id
    pub executor :
        read_token "executor_id" "executor_id_must_be_bounded_opaque_token" (text f.executor_id)
        ≡ ok f.executor_id
    pub terminal : read_terminal (flag f.terminal) ≡ ok f.terminal
    pub result :
        read_hash "result_hash" "result_hash_must_be_prefixed_sha256" (text f.result_hash)
        ≡ ok f.result_hash
    pub novelty :
        read_hash "novelty_hash" "novelty_hash_must_be_prefixed_sha256" (text f.novelty_hash)
        ≡ ok f.novelty_hash
    pub refs : read_refs (texts f.evidence_refs) ≡ ok f.evidence_refs
    pub counters :
        read_counters (counters_of (f.attempt_count, f.recovery_count))
        ≡ ok (f.attempt_count, f.recovery_count)
    pub observed : read_time calendar (text f.observed_at) ≡ ok f.observed_at

  read_time-text :
      (v : FactValue) {s : String}
      → read_time calendar v ≡ ok s
      → read_time calendar (text s) ≡ ok s
  unfolding read_time
  read_time-text (text s) {s = r} h =
      let (_, _, e) = >>=-eq-ok (parse_fact_time calendar "observed_at" s) _ h in
      subst (λ x. read_time calendar (text x) ≡ ok r) (ok_inj e) h
  read_time-text (flag b) h = cc
  read_time-text (texts ss) h = cc
  read_time-text (counts cs) h = cc
  read_time-text other h = cc

  token_field-text :
      (field message : String) (m : FactMapping) {s : String}
      → token_field calendar field message m ≡ ok s
      → read_token field message (text s) ≡ ok s
  token_field-text field message m h =
      let (v, _, e) = >>=-eq-ok (value_of field m) _ h in read_token-text field message v e

  from_mapping-IsReadable :
      (m : FactMapping) (f : WorkFact) → from_mapping calendar m ≡ ok f → IsReadable f
  unfolding from_mapping
  from_mapping-IsReadable m =
      after
        (raise_if (not (same_keys (keys_of m) work_fact_fields))
          (work_contract_error "work_fact_fields_must_be_exact"))
        _ IsReadable
        (λ _ _. after (value_of "schema_version" m) _ IsReadable (λ schema _.
          after (read_schema "work_fact.v1" "unsupported_work_fact_schema" schema) _ IsReadable
            (λ schema' c1.
              after (token_field calendar "fact_id" "fact_id_must_be_bounded_opaque_token" m) _
                IsReadable
                (λ fact t_fact.
                  after
                    (token_field calendar "idempotency_key"
                      "idempotency_key_must_be_bounded_opaque_token" m)
                    _ IsReadable
                    (λ key t_key.
                      after
                        (token_field calendar "work_item_id"
                          "work_item_id_must_be_bounded_opaque_token" m)
                        _ IsReadable
                        (λ item t_item.
                          after
                            (token_field calendar "session_id"
                              "session_id_must_be_bounded_opaque_token" m)
                            _ IsReadable
                            (λ session t_session.
                              after
                                (token_field calendar "executor_id"
                                  "executor_id_must_be_bounded_opaque_token" m)
                                _ IsReadable
                                (λ executor t_executor.
                                  after (value_of "outcome_class" m) _ IsReadable (λ outcome _.
                                    after (read_outcome outcome) _ IsReadable (λ outcome' r_outcome.
                                      after (value_of "terminal" m) _ IsReadable (λ terminal _.
                                        after (read_terminal terminal) _ IsReadable
                                          (λ terminal' r_terminal.
                                            after (value_of "result_hash" m) _ IsReadable
                                              (λ result _.
                                                after
                                                  (read_hash "result_hash"
                                                    "result_hash_must_be_prefixed_sha256" result)
                                                  _ IsReadable
                                                  (λ result' r_result.
                                                    after (value_of "novelty_hash" m) _ IsReadable
                                                      (λ novelty _.
                                                        after
                                                          (read_hash "novelty_hash"
                                                            "novelty_hash_must_be_prefixed_sha256"
                                                            novelty)
                                                          _ IsReadable
                                                          (λ novelty' r_novelty.
                                                            after (value_of "evidence_refs" m) _
                                                            IsReadable
                                                            (λ refs _.
                                                            after (read_refs refs) _ IsReadable
                                                            (λ refs' r_refs.
                                                            after (value_of "counters" m) _
                                                            IsReadable
                                                            (λ counters _.
                                                            after (read_counters counters) _
                                                            IsReadable
                                                            (λ counters' r_counters.
                                                            after (value_of "observed_at" m) _
                                                            IsReadable
                                                            (λ observed _.
                                                            after (read_time calendar observed) _
                                                            IsReadable
                                                            (λ observed' r_observed. λ f e.
                                                            subst IsReadable (ok_inj e) (record {
                                                            schema =
                                                            read_schema-text "work_fact.v1"
                                                            "unsupported_work_fact_schema" schema
                                                            c1;
                                                            fact =
                                                            token_field-text "fact_id"
                                                            "fact_id_must_be_bounded_opaque_token" m
                                                            t_fact;
                                                            key =
                                                            token_field-text "idempotency_key"
                                                            "idempotency_key_must_be_bounded_opaque_token"
                                                            m t_key;
                                                            item =
                                                            token_field-text "work_item_id"
                                                            "work_item_id_must_be_bounded_opaque_token"
                                                            m t_item;
                                                            session =
                                                            token_field-text "session_id"
                                                            "session_id_must_be_bounded_opaque_token"
                                                            m t_session;
                                                            executor =
                                                            token_field-text "executor_id"
                                                            "executor_id_must_be_bounded_opaque_token"
                                                            m t_executor;
                                                            terminal =
                                                            read_terminal-flag terminal r_terminal;
                                                            result =
                                                            read_hash-text "result_hash"
                                                            "result_hash_must_be_prefixed_sha256"
                                                            result r_result;
                                                            novelty =
                                                            read_hash-text "novelty_hash"
                                                            "novelty_hash_must_be_prefixed_sha256"
                                                            novelty r_novelty;
                                                            refs = read_refs-texts refs r_refs;
                                                            counters =
                                                            read_counters-counts counters
                                                            r_counters;
                                                            observed =
                                                            read_time-text observed r_observed;
                                                            })))))))))))))))))))))))

  -- A fact that was read from any mapping reads back from the mapping that it writes.
  pub from_mapping-to_mapping :
      (m : FactMapping) {f : WorkFact}
      → from_mapping calendar m ≡ ok f
      → from_mapping calendar (to_mapping f) ≡ ok f
  unfolding from_mapping to_mapping keys_of all_among one_of value_of
  from_mapping-to_mapping m {f} h =
      let r = from_mapping-IsReadable m f h in
      rw
        (
          r.schema,
          r.fact,
          r.key,
          r.item,
          r.session,
          r.executor,
          read_outcome-value f.outcome_class,
          r.terminal,
          r.result,
          r.novelty,
          r.refs,
          r.counters,
          r.observed,
        )
        refl
