-- ===== src/Gatectl/Human/Approvable.antt =====
-- What an approval by a human demands.
use devmate.Prelude.{
  ℕ, String, List, Bool, true, false, Option, ◌≡◌, ◌≢◌, ◌↔◌, ◌⊎◌, inl, inr, refl, sym, ap, ◌∙◌,
  Bool-cases,
}
use devmate.Prelude.Text.{str_eq}
use devmate.Json.{Json, Fields}
use devmate.Gates.Transition.{gate_of}
use devmate.TaskState.Validate.{StateResult, ok, err}
use devmate.TaskState.Store.{JsonText, File, ReadError, read_task_state}
use devmate.Preconditions.Context.{Reads}
use devmate.Gatectl.{Advance, advanced, illegal, advance_gate}
use devmate.Gatectl.Human.{approve, is_audited, target_check, judge_state, judge_advance}

Advance-cases :
    (a : Advance)
    → ((gate : String) × (a ≡ advanced gate))
      ⊎ ((from to : String) × (legal : List String) × (a ≡ illegal from to legal))
Advance-cases (advanced gate) = inl (gate, refl)
Advance-cases (illegal from to legal) = inr (from, to, legal, refl)

module _ (trim : String → String) (same_bytes : String → String → Bool)
    (parse_date : Option Json → Option ℕ) (is_date : String → Bool) (reads : Reads)
    (json : JsonText) where
  -- The audit pair is there where the target asks for it, the task is not parked, the edge is legal,
  -- the state is read and stands at the gate that the caller names, and the target's artifacts
  -- are there.
  abbrev pub IsApprovable :
      (current target : String) (actor evidence : Option String) → File json.Text → Fields → Type 0
  IsApprovable current target actor evidence file state =
      (is_audited target actor evidence ≡ true)
      × (str_eq current "parked" ≡ false)
      × ((gate : String) × (advance_gate current target ≡ advanced gate))
      × (read_task_state json file ≡ ok state)
      × (str_eq (gate_of state) current ≡ true)
      × ((target_check trim same_bytes parse_date is_date reads json target state).ok ≡ true)

  -- What is approved is the state that stands at the gate and whose target has its artifacts.
  judge_state_iff :
      (current target : String) (result : StateResult ReadError) (state : Fields)
      → (judge_state trim same_bytes parse_date is_date reads json current target result
          ≡ approve state)
        ↔ ((result ≡ ok state)
            × (str_eq (gate_of state) current ≡ true)
            × ((target_check trim same_bytes parse_date is_date reads json target state).ok ≡ true))
  unfolding judge_state
  judge_state_iff current target (err errors) state = (λ h. cc, λ (r, _, _). cc)
  judge_state_iff current target (ok found) state =
      elim (Bool-cases (str_eq (gate_of found) current)) [
        | inr g ↦ rw g (λ h. cc, λ (r, e, _). absurd (other_gate g r e))
        | inl g ↦
            elim (Bool-cases
              (target_check trim same_bytes parse_date is_date reads json target found).ok) [
                | inr c ↦ rw (g, c) (λ h. cc, λ (r, _, e). absurd (other_check c r e))
                | inl c ↦ rw (g, c) (λ h. rw (sym (same_state h)) (refl, g, c), λ (r, _, _). cc)
              ]
      ]
    where
      same_state : approve found ≡ approve state → found ≡ state
      same_state h = cc

      found_state : ◌≡◌ {A = StateResult ReadError} (ok found) (ok state) → found ≡ state
      found_state r = cc

      clash : {b : Bool} → b ≡ false → b ≢ true
      clash f t = cc

      other_gate :
          str_eq (gate_of found) current ≡ false
          → ◌≡◌ {A = StateResult ReadError} (ok found) (ok state)
          → str_eq (gate_of state) current ≢ true
      other_gate g r e = clash (ap (λ s. str_eq (gate_of s) current) (sym (found_state r)) ∙ g) e

      other_check :
          (target_check trim same_bytes parse_date is_date reads json target found).ok ≡ false
          → ◌≡◌ {A = StateResult ReadError} (ok found) (ok state)
          → (target_check trim same_bytes parse_date is_date reads json target state).ok ≢ true
      other_check c r e =
          clash
            (ap (λ s. (target_check trim same_bytes parse_date is_date reads json target s).ok)
                (sym (found_state r))
              ∙ c)
            e

  -- A move is approved exactly where everything that it demands is there.
  pub judge_advance_iff :
      (current target : String) (actor evidence : Option String) (file : File json.Text)
      (state : Fields)
      → (judge_advance trim same_bytes parse_date is_date reads json current target actor evidence
            file
          ≡ approve state)
        ↔ IsApprovable current target actor evidence file state
  unfolding judge_advance
  judge_advance_iff current target actor evidence file state =
      elim (Bool-cases (is_audited target actor evidence)) [
        | inr a ↦ rw a (λ h. cc, λ (e, _, _, _, _, _). cc)
        | inl a ↦ elim (Bool-cases (str_eq current "parked")) [
          | inl p ↦ rw (a, p) (λ h. cc, λ (_, e, _, _, _, _). cc)
          | inr p ↦ elim (Advance-cases (advance_gate current target)) [
            | inr (f, t, l, i) ↦ rw (a, p, i) (λ h. cc, λ (_, _, (_, e), _, _, _). cc)
            | inl (gate, legal) ↦
                let (forth, back) =
                  judge_state_iff current target (read_task_state json file) state in
                rw (a, p, legal)
                  (
                    λ h. let (r, g, c) = forth h in (refl, refl, (gate, refl), r, g, c),
                    λ (_, _, _, r, g, c). back (r, g, c),
                  )
          ]
        ]
      ]
