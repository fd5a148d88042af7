-- ===== src/Work/Roundtrip.antt =====
-- A fact that was read from a mapping is read again from the mapping that it writes.
use hermes_life_bridge.Prelude.{
  ℕ, ◌≡◌, refl, ap, subst, ◌∙◌, Bool, true, false, not, List, [], ◌∷◌, String, arith, ltb, length,
}
use hermes_life_bridge.Errors.{ok, ok_inj, work_contract_error, raise_if, >>=-eq-ok}
use hermes_life_bridge.Store.{one_of}
use hermes_life_bridge.Work.Contract.{
  WorkOutcome, verified_complete, verified_blocker, material_failure, safe_token, safe_hash,
  safe_tokens, has_repeat, safe_evidence_refs, safe_counter,
}
use hermes_life_bridge.Work.Mapping.{
  FactValue, text, flag, texts, counts, other, keys_of, all_among, same_keys, value_of,
  outcome_value, read_schema, read_token, read_outcome, read_terminal, read_hash, read_refs,
  read_counters,
}

-- What is returned is what was checked.
safe_token-same : (field s : String) {r : String} → safe_token field s ≡ ok r → s ≡ r
unfolding safe_token
safe_token-same field s h = ground arith

safe_hash-same : (field s : String) {r : String} → safe_hash field s ≡ ok r → s ≡ r
unfolding safe_hash
safe_hash-same field s h = ground arith

safe_counter-same : (name : String) (n : ℕ) {r : ℕ} → safe_counter name n ≡ ok r → n ≡ r
unfolding safe_counter
safe_counter-same name n h = ground arith

safe_tokens-same :
    (field : String) (ss : List String) {rs : List String} → safe_tokens field ss ≡ ok rs → ss ≡ rs
unfolding safe_tokens
safe_tokens-same field [] h = ok_inj h
safe_tokens-same field (s ∷ ss) h =
    let (r, one, h1) = >>=-eq-ok (safe_token field s) _ h in
    let (rs, rest, e) = >>=-eq-ok (safe_tokens field ss) _ h1 in
    ap (λ x. x ∷ ss) (safe_token-same field s one)
    ∙ ap (λ xs. r ∷ xs) (safe_tokens-same field ss rest)
    ∙ ok_inj e

safe_evidence_refs-same :
    (refs : List String) {rs : List String} → safe_evidence_refs refs ≡ ok rs → refs ≡ rs
unfolding safe_evidence_refs
safe_evidence_refs-same refs h =
    let (_, _, h1) =
      >>=-eq-ok (raise_if (ltb 32 (length refs)) (work_contract_error "evidence_refs_too_many")) _
        h in
    let (rs, kept, h2) = >>=-eq-ok (safe_tokens "evidence_ref" refs) _ h1 in
    let (_, _, e) =
      >>=-eq-ok (raise_if (has_repeat rs) (work_contract_error "evidence_refs_must_be_unique")) _
        h2 in
    safe_tokens-same "evidence_ref" refs kept ∙ ok_inj e

pub read_schema-text :
    (expected message : String) (v : FactValue) {s : String}
    → read_schema expected message v ≡ ok s
    → read_schema expected message (text s) ≡ ok s
unfolding read_schema
read_schema-text expected message (text s) h = ground arith
read_schema-text expected message (flag b) h = cc
read_schema-text expected message (texts ss) h = cc
read_schema-text expected message (counts cs) h = cc
read_schema-text expected message other h = cc

pub read_token-text :
    (field message : String) (v : FactValue) {s : String}
    → read_token field message v ≡ ok s
    → read_token field message (text s) ≡ ok s
unfolding read_token
read_token-text field message (text s) {s = r} h =
    subst (λ x. safe_token field x ≡ ok r) (safe_token-same field s h) h
read_token-text field message (flag b) h = cc
read_token-text field message (texts ss) h = cc
read_token-text field message (counts cs) h = cc
read_token-text field message other h = cc

pub read_hash-text :
    (field message : String) (v : FactValue) {s : String}
    → read_hash field message v ≡ ok s
    → read_hash field message (text s) ≡ ok s
unfolding read_hash
read_hash-text field message (text s) {s = r} h =
    subst (λ x. safe_hash field x ≡ ok r) (safe_hash-same field s h) h
read_hash-text field message (flag b) h = cc
read_hash-text field message (texts ss) h = cc
read_hash-text field message (counts cs) h = cc
read_hash-text field message other h = cc

pub read_outcome-value : (o : WorkOutcome) → read_outcome (text (outcome_value o)) ≡ ok o
unfolding read_outcome outcome_value
read_outcome-value verified_complete = refl
read_outcome-value verified_blocker = refl
read_outcome-value material_failure = refl

pub read_terminal-flag :
    (v : FactValue) {b : Bool} → read_terminal v ≡ ok b → read_terminal (flag b) ≡ ok b
unfolding read_terminal
read_terminal-flag (flag true) h = subst (λ x. read_terminal (flag x) ≡ ok x) (ok_inj h) refl
read_terminal-flag (flag false) h = cc
read_terminal-flag (text s) h = cc
read_terminal-flag (texts ss) h = cc
read_terminal-flag (counts cs) h = cc
read_terminal-flag other h = cc

pub read_refs-texts :
    (v : FactValue) {rs : List String} → read_refs v ≡ ok rs → read_refs (texts rs) ≡ ok rs
unfolding read_refs
read_refs-texts (texts ss) {rs} h =
    subst (λ x. safe_evidence_refs x ≡ ok rs) (safe_evidence_refs-same ss h) h
read_refs-texts (flag b) h = cc
read_refs-texts (text s) h = cc
read_refs-texts (counts cs) h = cc
read_refs-texts other h = cc

abbrev pub counters_of : ℕ × ℕ → FactValue
counters_of (a, r) = counts (("attempt_count", a) ∷ ("recovery_count", r) ∷ [])

pub read_counters-counts :
    (v : FactValue) {c : ℕ × ℕ} → read_counters v ≡ ok c → read_counters (counters_of c) ≡ ok c
unfolding read_counters keys_of all_among value_of one_of
read_counters-counts (counts cs) h =
    let (_, _, h1) =
      >>=-eq-ok
        (raise_if (not (same_keys (keys_of cs) ("attempt_count" ∷ "recovery_count" ∷ [])))
          (work_contract_error "counters_fields_must_be_exact"))
        _ h in
    let (a, _, h2) = >>=-eq-ok (value_of "attempt_count" cs) _ h1 in
    let (a', ca, h3) = >>=-eq-ok (safe_counter "attempt_count" a) _ h2 in
    let (r, _, h4) = >>=-eq-ok (value_of "recovery_count" cs) _ h3 in
    let (r', cr, e) = >>=-eq-ok (safe_counter "recovery_count" r) _ h4 in
    let ca' : safe_counter "attempt_count" a' ≡ ok a' =
      subst (λ x. safe_counter "attempt_count" x ≡ ok a') (safe_counter-same "attempt_count" a ca)
        ca in
    let cr' : safe_counter "recovery_count" r' ≡ ok r' =
      subst (λ x. safe_counter "recovery_count" x ≡ ok r') (safe_counter-same "recovery_count" r cr)
        cr in
    subst (λ x. read_counters (counters_of x) ≡ ok x) (ok_inj e) (rw (ca', cr') refl)
read_counters-counts (text s) h = cc
read_counters-counts (flag b) h = cc
read_counters-counts (texts ss) h = cc
read_counters-counts other h = cc
