-- ===== src/TaskState/Versions.antt =====
-- Versions under concurrent writers: what any number of other calls of `mutateTaskStateUnderLock`
-- can do to task.json, in any order.
use devmate.Prelude.{ℕ, ◌<◌, true, ◌≡◌, refl, sym, ◌∙◌, ap, ◌⊎◌, inl, inr, arith, Bool-cases}
use devmate.Json.{Fields}
use devmate.TaskState.Validate.{StateResult, ok}
use devmate.TaskState.Store.{
  JsonText, World, Host, MutateResult, written, Mutated, Options, state_version_of, read_task_state,
  stamp, mutate_under_lock,
}
use devmate.TaskState.Store.Laws.{
  is_written, mutate_written, mutate_unwritten, read-print, state_version_of-stamp,
}

is_written-cases : (r : MutateResult) → is_written r ≡ true → (v : ℕ) × (r ≡ written v)
is_written-cases r h = ground arith

ok-injective : {E : Type 0} {a b : Fields} → ◌≡◌ {A = StateResult E} (ok a) (ok b) → a ≡ b
ok-injective p = cc

module _ (json : JsonText) where
  open json use {Text}

  -- The worlds that mutations by others lead to.
  pub data Evolves (from : World Text) : World Text → Type 0 where
    here : Evolves from from
    step :
        {mid to : World Text} (host : Host) (opts : Options) (mutate : Fields → Mutated)
        → Evolves from mid
        → to ≡ (mutate_under_lock json host opts mutate mid).1
        → Evolves from to

  -- The file is as it was, or holds a state of a later version.
  abbrev pub Later : World Text → World Text → Fields → Type 0
  Later from to state =
      (to.file ≡ from.file)
      ⊎ ((state' : Fields) × (read_task_state json to.file ≡ ok state')
          × (state_version_of state < state_version_of state'))

  mutate-Later :
      (host : Host) (opts : Options) (mutate : Fields → Mutated) (world : World Text)
      (state : Fields)
      → read_task_state json world.file ≡ ok state
      → Later world (mutate_under_lock json host opts mutate world).1 state
  mutate-Later host opts mutate world state h =
      elim (Bool-cases (is_written (mutate_under_lock json host opts mutate world).0)) [
        | inl wrote ↦
            let (v, e) = is_written-cases _ wrote in
            let c = mutate_written json host opts mutate world v e in
            let same : c.current ≡ state = ok-injective (sym c.is_read ∙ h) in
            inr (
              stamp c.next v,
              rw c.stored (read-print json (stamp c.next v) c.valid),
              omega (arith, state_version_of-stamp c.next v, c.bumped, ap state_version_of same),
            )
        | inr idle ↦
            inl
              (ap (λ (w : World Text). w.file) (mutate_unwritten json host opts mutate world idle))
      ]

  -- However others mutate the file, it is as it was, or holds a state of a later version.
  pub Evolves-Later :
      {from to : World Text} (state : Fields)
      → read_task_state json from.file ≡ ok state
      → Evolves from to
      → Later from to state
  Evolves-Later state h here = inl refl
  Evolves-Later {from} {to} state h (step {mid} host opts mutate r e) =
      elim (Evolves-Later state h r) [
        | inl same ↦ elim (mutate-Later host opts mutate mid state (rw same h)) [
          | inl still ↦ inl (ap (λ (w : World Text). w.file) e ∙ (still ∙ same))
          | inr (s, is_read, later) ↦ inr (s, rw e is_read, later)
        ]
        | inr (t, is_read, later) ↦ elim (mutate-Later host opts mutate mid t is_read) [
          | inl still ↦ inr (t, rw e (rw still is_read), later)
          | inr (s, is_read', later') ↦ inr (s, rw e is_read', omega arith)
        ]
      ]

  -- Along any sequence of locked mutations, with no other writer: a state that is read later is the one
  -- that was read before, or its version is greater.
  pub Evolves-grows :
      {from to : World Text} (state state' : Fields)
      → read_task_state json from.file ≡ ok state
      → Evolves from to
      → read_task_state json to.file ≡ ok state'
      → (state' ≡ state) ⊎ (state_version_of state < state_version_of state')
  Evolves-grows state state' h r h' = elim (Evolves-Later state h r) [
    | inl still ↦ inl (ok-injective (sym h' ∙ ap (read_task_state json) still ∙ h))
    | inr (s, is_read, later) ↦
        let e : s ≡ state' = ok-injective (sym is_read ∙ h') in
        inr (omega (arith, later, ap state_version_of e))
  ]

  -- Of two states that are read from the file, the second after mutations under the lock have
  -- run, equal versions mean equal states, if no other writer touches the file in between.
  pub Evolves-same_version :
      {from to : World Text} (state state' : Fields)
      → read_task_state json from.file ≡ ok state
      → Evolves from to
      → read_task_state json to.file ≡ ok state'
      → state_version_of state' ≡ state_version_of state
      → state' ≡ state
  Evolves-same_version state state' h r h' same = elim (Evolves-grows state state' h r h') [
    | inl e ↦ e
    | inr later ↦ absurd (omega (arith, same, later))
  ]
