-- ===== src/Work/Idle.antt =====
-- The activity of a session settles every pending fact that was accepted in it before.
use mathlib.Core.Option
use hermes_life_bridge.Prelude.{
  ℕ, ◌+◌, ◌≡◌, refl, sym, ap, subst, ◌∙◌, inl, inr, Bool-cases, Bool, true, false, Option, none,
  some, List, [], ◌∷◌, String, arith, ◌==◌, eq_iff, if◌then◌else◌, first, update_where,
}
use hermes_life_bridge.Errors.{ok, ok_inj}
use hermes_life_bridge.Calendar.{Calendar}
use hermes_life_bridge.Work.Tables.{EpochRow, of_session, find_epoch, is_found}
use hermes_life_bridge.Work.Ledger.{WorkHost, ensure_epoch, require_epoch, bump_epoch, bumped}
use hermes_life_bridge.Work.Decided.{first-update_where}

some_inj {ℓ} : {A : Type ℓ} {x y : A} → some x ≡ some y → x ≡ y
some_inj h = cc

abbrev pub epoch_value : Option EpochRow → ℕ
epoch_value none = 0
epoch_value (some row) = row.epoch

-- The epoch of a session, none of whose activity was seen where it has no row.
abbrev pub current : String → List EpochRow → ℕ
current session rows = epoch_value (find_epoch session rows)

first-passes {ℓ} :
    {A : Type ℓ} (p : A → Bool) (xs : List A) {x : A} → first p xs ≡ some x → p x ≡ true
unfolding first
first-passes p [] h = absurd cc
first-passes p (y ∷ ys) {x} h = elim (Bool-cases (p y)) [
  | inl hit ↦ let e : some y ≡ some x = rw hit at h in subst (λ z. p z ≡ true) (some_inj e) hit
  | inr missed ↦ first-passes p ys (rw missed at h)
]

module _ (calendar : Calendar) (host : WorkHost) where
  pub require_epoch-current :
      (o : Option EpochRow) {n : ℕ} → require_epoch calendar host o ≡ ok n → n ≡ epoch_value o
  require_epoch-current none h = absurd cc
  require_epoch-current (some row) h = sym (ok_inj h)

  module _ (s session : String) (rows : List EpochRow) where
    -- The epoch of a session is also that of the same session under another name for it.
    renamed :
        {o : Option EpochRow}
        → (session == s) ≡ true
        → first (of_session session) rows ≡ o
        → first (of_session s) rows ≡ o
    renamed {o} same f = subst (λ i. first (of_session i) rows ≡ o) ((eq_iff session s).0 same) f

    ensured :
        (o : Option EpochRow) (new : EpochRow)
        → first (of_session session) rows ≡ o
        → new.session_id ≡ session
        → new.epoch ≡ 0
        → epoch_value (first (of_session s) (if is_found o then rows else new ∷ rows))
          ≡ epoch_value (first (of_session s) rows)
    unfolding first
    ensured (some row) new f name zero = refl
    ensured none new f name zero = elim (Bool-cases (session == s)) [
      | inl same ↦ rw (name, same, renamed same f, zero) refl
      | inr other ↦ rw (name, other) refl
    ]

    pub current-ensure_epoch : current s (ensure_epoch calendar host session rows) ≡ current s rows
    unfolding ensure_epoch find_epoch
    current-ensure_epoch = ensured (first (of_session session) rows) _ refl refl refl

    other_session :
        (at : String) (o : Option EpochRow)
        → (session == s) ≡ false
        → first (of_session s) rows ≡ o
        → epoch_value
            (Option.map (λ x. if of_session session x then bumped calendar host at x else x) o)
          ≡ epoch_value o
    other_session at none other f = refl
    other_session at (some row) other f =
        let mine = first-passes (of_session s) rows f in rw (different row mine) refl
      where
        different : (r : EpochRow) → (r.session_id == s) ≡ true → (r.session_id == session) ≡ false
        different r mine =
            ground (arith, eq_iff r.session_id s, eq_iff r.session_id session, eq_iff session s)

    bumped_epoch :
        (at : String) (o : Option EpochRow) (new : EpochRow)
        → first (of_session session) rows ≡ o
        → new.session_id ≡ session
        → new.epoch ≡ 1
        → epoch_value (
            first (of_session s) (
              if is_found o
              then update_where (of_session session) (bumped calendar host at) rows
              else new ∷ rows))
          ≡ (if session == s
              then epoch_value (first (of_session s) rows) + 1
              else epoch_value (first (of_session s) rows))
    unfolding first
    bumped_epoch at (some row) new f name one = first_bumped ∙ elim (Bool-cases (session == s)) [
      | inl same ↦ rw (same, renamed same f, first-passes (of_session session) rows f) refl
      | inr other ↦ rw other (other_session at (first (of_session s) rows) other refl)
    ]
      where
        first_bumped :
            epoch_value (
              first
                (of_session s)
                (update_where (of_session session) (bumped calendar host at) rows))
            ≡ epoch_value (
                Option.map
                  (λ x. if of_session session x then bumped calendar host at x else x)
                  (first (of_session s) rows))
        first_bumped = ap epoch_value (
            first-update_where (of_session s) (of_session session) (bumped calendar host at) rows
              (λ x. refl))
    bumped_epoch at none new f name one = elim (Bool-cases (session == s)) [
      | inl same ↦ rw (name, same, renamed same f, one) refl
      | inr other ↦ rw (name, other) refl
    ]

    pub current-bump_epoch :
        (at : String)
        → current s (bump_epoch calendar host session at rows)
          ≡ (if session == s then current s rows + 1 else current s rows)
    unfolding bump_epoch find_epoch
    current-bump_epoch at = bumped_epoch at (first (of_session session) rows) _ refl refl refl
