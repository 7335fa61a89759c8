-- ===== src/FileLock/Exclusion.antt =====
-- While no probe finds an owner dead, one call at most has the lock.
use native.Mathlib.Decide.{ℕ_discrete}
use devmate.Prelude.{
  ℕ, String, Bool, true, false, Option, ◌≡◌, ◌≢◌, refl, sym, ◌∙◌, inl, inr, Bool-cases,
}
use devmate.FileLock.Acquire.{
  LockFile, absent, Caller, Phase, opening, stealing, crashed, update, update_own, update_other,
  System, Step, access, crash, Reach, start, later, has_lock,
}
use devmate.FileLock.Access.{AllAlive, OfBoot, Kept, none-read, rests-Kept, move-Kept}

module _ (is_pid : String → Bool) (parse_date : String → Option ℕ) (boot : String) where
  record Inv (s : System) : Type 0 where
    calm : (i : ℕ) → s.phase i ≢ stealing
    of_boot : OfBoot boot s.file
    present : (i : ℕ) → has_lock (s.phase i) ≡ true → s.file ≢ absent
    unique : (i j : ℕ) → has_lock (s.phase i) ≡ true → has_lock (s.phase j) ≡ true → i ≡ j

  -- A caller that has the lock after its access is the only one that has.
  alone :
      (s : System) (i : ℕ) (file : LockFile) (phase : Phase)
      → Inv s
      → Kept is_pid parse_date boot s.file (s.phase i) file phase
      → has_lock phase ≡ true
      → (j : ℕ) → has_lock (s.phase j) ≡ true
      → i ≡ j
  alone s i file phase inv kept now j h = elim (Bool-cases (has_lock (s.phase i))) [
    | inl was ↦ inv.unique i j was h
    | inr not_yet ↦ absurd (inv.present j h (kept.gains not_yet now).0)
  ]

  still_present :
      (s : System) (i : ℕ) (file : LockFile) (phase : Phase)
      → Inv s
      → Kept is_pid parse_date boot s.file (s.phase i) file phase
      → (j : ℕ) → i ≢ j
      → has_lock (s.phase j) ≡ true
      → file ≢ absent
  still_present s i file phase inv kept j n h = elim (Bool-cases (has_lock (s.phase i))) [
    | inl was ↦ absurd (n (inv.unique i j was h))
    | inr not_yet ↦ elim (Bool-cases (has_lock phase)) [
      | inl now ↦ absurd (inv.present j h (kept.gains not_yet now).0)
      | inr not_now ↦ rw (kept.idles not_yet not_now) (inv.present j h)
    ]
  ]

  -- An access of call `i` that does what `Kept` says keeps the invariant of the whole system.
  update-Inv :
      (s : System) (i : ℕ) (file : LockFile) (phase : Phase)
      → Inv s
      → Kept is_pid parse_date boot s.file (s.phase i) file phase
      → Inv (record { file = file; phase = update s.phase i phase })
  update-Inv s i file phase inv kept = record {
    calm = λ j. elim (ℕ_discrete i j) [
      | yes e ↦ rw (update_own s.phase i phase j e) kept.calm
      | no n ↦ rw (update_other s.phase i phase j n) (inv.calm j)
    ];
    of_boot = kept.of_boot;
    present = λ j. elim (ℕ_discrete i j) [
      | yes e ↦ rw (update_own s.phase i phase j e) (λ now.
          elim (Bool-cases (has_lock (s.phase i))) [
            | inl was ↦ kept.stays was now (inv.present i was)
            | inr not_yet ↦ (kept.gains not_yet now).1
          ])
      | no n ↦ rw (update_other s.phase i phase j n) (still_present s i file phase inv kept j n)
    ];
    unique = λ j k. elim (ℕ_discrete i j) [
      | yes e ↦ rw (update_own s.phase i phase j e) (elim (ℕ_discrete i k) [
        | yes d ↦ λ _ _. sym e ∙ d
        | no n ↦
            rw (update_other s.phase i phase k n)
              (λ now h. absurd (n (alone s i file phase inv kept now k h)))
      ])
      | no n ↦ rw (update_other s.phase i phase j n) (elim (ℕ_discrete i k) [
        | yes d ↦
            rw (update_own s.phase i phase k d)
              (λ h now. absurd (n (alone s i file phase inv kept now j h)))
        | no m ↦ rw (update_other s.phase i phase k m) (inv.unique j k)
      ])
    ];
  }

  opening-Inv : Inv (record { file = absent; phase = λ _. opening })
  opening-Inv = record {
    calm = λ i e. cc;
    of_boot = λ info p. absurd (none-read is_pid parse_date boot info p);
    present = λ i p. cc;
    unique = λ i j p q. cc;
  }

  module _ (callers : ℕ → Caller) (same : (i : ℕ) → (callers i).start_token ≡ boot) where
    Step-Inv : {s t : System} → Step is_pid parse_date callers AllAlive s t → Inv s → Inv t
    Step-Inv {s} (access i a alive) inv = update-Inv s i _ _ inv (
        move-Kept is_pid parse_date boot (callers i) a s.file (s.phase i) (same i) alive inv.of_boot
          (inv.calm i))
    Step-Inv {s} (crash i) inv =
        update-Inv s i s.file crashed inv
          (rests-Kept is_pid parse_date boot s.file (s.phase i) crashed inv.of_boot (λ e. cc) refl)

    Reach-Inv : {s t : System} → Reach is_pid parse_date callers AllAlive s t → Inv s → Inv t
    Reach-Inv start inv = inv
    Reach-Inv (later r st) inv = Step-Inv st (Reach-Inv r inv)

    -- Let calls of one boot take their steps in any order, from where no lock file exists, die at
    -- any step, and fail at any access of the file, and let every probe of an owner find it alive
    -- or fail. Then while one call has acquired the lock and not yet released it, no other call has.
    pub Reach-unique :
        (s : System)
        → Reach is_pid parse_date callers AllAlive
            (record { file = absent; phase = λ _. opening })
            s
        → (i j : ℕ) → i ≢ j
        → has_lock (s.phase i) ≡ true
        → has_lock (s.phase j) ≡ false
    Reach-unique s r i j n h = elim (Bool-cases (has_lock (s.phase j))) [
      | inl both ↦ absurd (n ((Reach-Inv r opening-Inv).unique i j h both))
      | inr free ↦ free
    ]
