-- ===== src/Contact/Kept.antt =====
-- The contact service without its sender: no attempt counter falls and nothing is sent.
use hermes_life_bridge.Prelude.{
  ℕ, ◌+◌, ◌≤◌, refl, sym, subst, some, List, [], ◌∷◌, String, ◌==◌, if◌then◌else◌,
}
use hermes_life_bridge.Exec.{Exec, lift, reads}
use hermes_life_bridge.Exec.Preserves.{Preserves, Preserves-lift, Preserves-pure, Preserves-bind}
use hermes_life_bridge.Calendar.{Calendar}
use hermes_life_bridge.Contract.{BridgeOperation}
use hermes_life_bridge.Store.{
  Database, get, call, completing, failing, mark_completed, mark_failed_safe, AtLeast, call-AtLeast,
}
use hermes_life_bridge.Contact.Evidence.{
  ContactEvidenceOutcome, was_delivered, not_delivered, still_unknown, ContactEvidence,
}
use hermes_life_bridge.Contact.Reconciler.{
  Stores, EvidenceProbe, on_operations, require_contact, collect_evidence, settle_by, reconcile,
}
use hermes_life_bridge.Contact.Resolved.{collect_evidence-Untouched}
use hermes_life_bridge.Contact.Setting.{
  Sending, ContactWorld, ContactHost, on_stores, in_operations, in_tables, emit, current_time,
}

-- How often a message was handed to the sender for an operation.
unfoldable pub times_sent : String → List Sending → ℕ
times_sent id [] = 0
times_sent id (s ∷ rest) = (if s.operation_id == id then 1 else 0) + times_sent id rest

-- No operation was sent for more often than once, nor more often than its counter says.
pub record Once (w : ContactWorld) : Type 0 where
  pub least : AtLeast (λ id. times_sent id w.sent) w.stores.operations
  pub single : (id : String) → times_sent id w.sent ≤ 1

module _ (n : String → ℕ) where
  abbrev Held : Stores → Type 0
  Held s = AtLeast n s.operations

  pub on_operations-Held :
      {A : Type 0} (m : Exec Database A)
      → Preserves (AtLeast n) m
      → Preserves Held (on_operations m)
  on_operations-Held m h = record { from = λ s l. h.from s.operations l }

  module _ (sanitize : String → String) (probe : EvidenceProbe) (now : String) where
    collect_evidence-Held :
        (op : BridgeOperation) → Preserves Held (collect_evidence sanitize probe now op)
    collect_evidence-Held op = record {
      from = λ s l.
          subst (λ d. AtLeast n d)
            (sym ((collect_evidence-Untouched sanitize probe now s.operations op).from s refl)) l;
    }

    settle_by-Held :
        (o : ContactEvidenceOutcome) (at : String) (op : BridgeOperation) (e : ContactEvidence)
        → Preserves Held (settle_by sanitize probe now o at op e)
    unfolding call
    settle_by-Held still_unknown at op e = Preserves-pure _
    settle_by-Held was_delivered at op e =
        Preserves-bind (on_operations (mark_completed op.operation_id at)) _
          (on_operations-Held _ (call-AtLeast n completing op.operation_id at))
          (λ resolved. Preserves-pure _)
    settle_by-Held not_delivered at op e =
        let code = some "reconciled_authoritative_non_delivery" in
        Preserves-bind (on_operations (mark_failed_safe op.operation_id at code)) _
          (on_operations-Held _ (call-AtLeast n (failing code) op.operation_id at))
          (λ resolved. Preserves-pure _)

    pub reconcile-Held : (id at : String) → Preserves Held (reconcile sanitize probe now id at)
    unfolding reconcile
    reconcile-Held id at =
        Preserves-bind (on_operations (reads (get id))) _ (record { from = λ s l. l })
          (λ found. Preserves-bind (lift (require_contact found)) _ (Preserves-lift _) (λ op.
            Preserves-bind (collect_evidence sanitize probe now op) _ (collect_evidence-Held op)
              (λ e. settle_by-Held e.outcome at op e)))

abbrev pub Keeps : {A : Type 0} → Exec ContactWorld A → Type 0
Keeps m = Preserves Once m

-- A step on the stores that lowers no counter.
pub on_stores-Once :
    {A : Type 0} (m : Exec Stores A)
    → ((n : String → ℕ) → Preserves (λ (s : Stores). AtLeast n s.operations) m)
    → Keeps (on_stores m)
on_stores-Once m h = record {
  from = λ w o. record {
    least = (h (λ id. times_sent id w.sent)).from w.stores o.least;
    single = o.single;
  };
}

pub in_operations-Once :
    {A : Type 0} (m : Exec Database A)
    → ((n : String → ℕ) → Preserves (AtLeast n) m)
    → Keeps (in_operations m)
in_operations-Once m h = on_stores-Once (on_operations m) (λ n. on_operations-Held n m (h n))

pub in_tables-Once : {A : Type 0} (m : Exec _ A) → Keeps (in_tables m)
in_tables-Once m = record { from = λ w o. record { least = o.least; single = o.single } }

pub emit-Once : (stage : String) → Keeps (emit stage)
emit-Once stage = record { from = λ w o. record { least = o.least; single = o.single } }

pub current_time-Once :
    (calendar : Calendar) (host : ContactHost) → Keeps (current_time calendar host)
current_time-Once calendar host = record {
  from = λ w o. record { least = o.least; single = o.single };
}
