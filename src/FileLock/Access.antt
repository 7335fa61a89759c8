-- ===== src/FileLock/Access.antt =====
-- What one access of withFileLock does, while no probe finds an owner dead.
use text.Mathlib.TextEquality.{eq_iff}
use devmate.Prelude.{
  ℕ, String, Bool, true, false, Option, none, some, ◌≡◌, ◌≢◌, refl, sym, ap, ◌∙◌, inl, inr, arith,
  Bool-cases, Option-cases, leb,
}
use devmate.Json.{get}
use devmate.FileLock.{
  LockInfo, BootToken, bootid, epoch, read_lock_info, parse_boot_token, differ,
  owner_looks_recycled, or_alive, is_lock_stale,
}
use devmate.FileLock.Acquire.{
  LockFile, absent, holds, Caller, Phase, opening, reading, stealing, writing, running, releasing,
  crashed, finished, Answers, content, lock_json, judges_stale, move, has_lock,
}

abbrev pub AllAlive : Answers → Type 0
AllAlive a = (owner : String) → or_alive (a.alive owner) ≡ true

differ_self : (t : Option BootToken) → differ t t ≡ false
differ_self none = refl
differ_self (some (bootid a)) = ground (arith, eq_iff a a)
differ_self (some (epoch n)) = ground arith

-- A lock of an owner that is alive and of the same boot is never stale, whatever its age.
is_lock_stale-alive :
    (is_pid : String → Bool) (parse_date : String → Option ℕ) (info : LockInfo) (now bound : ℕ)
    (alive : String → Option Bool) (current : String)
    → or_alive (alive info.owner) ≡ true
    → info.start_token ≡ some current
    → is_lock_stale is_pid parse_date (some info) now bound alive current ≡ false
unfolding is_lock_stale owner_looks_recycled
is_lock_stale-alive is_pid parse_date info now bound alive current lives same =
    rw same (ground (arith, lives, differ_self (parse_boot_token (some current))))

-- What the file says of its owner's boot.
abbrev pub OfBoot : String → LockFile → Type 0
OfBoot boot file =
    (info : LockInfo) → read_lock_info (content file) ≡ some info → info.start_token ≡ some boot

module _ (is_pid : String → Bool) (parse_date : String → Option ℕ) (boot : String) where
  judges_stale-alive :
      (caller : Caller) (a : Answers) (file : LockFile)
      → caller.start_token ≡ boot
      → AllAlive a
      → OfBoot boot file
      → judges_stale is_pid parse_date caller a file ≡ false
  unfolding judges_stale is_lock_stale
  judges_stale-alive caller a file same lives of_boot =
      elim (Option-cases (read_lock_info (content file))) [
        | inl h ↦ rw h refl
        | inr (info, h) ↦ rw h (
            is_lock_stale-alive is_pid parse_date info a.now caller.stale_reclaim_ms a.alive
              caller.start_token (lives info.owner) (of_boot info h ∙ ap some (sym same)))
      ]

  -- What one access does to the file, and to whether its caller has the lock.
  pub record Kept (file : LockFile) (phase : Phase) (file' : LockFile) (phase' : Phase)
      : Type 0 where
    pub calm : phase' ≢ stealing
    pub of_boot : OfBoot boot file'
    pub stays : has_lock phase ≡ true → has_lock phase' ≡ true → file ≢ absent → file' ≢ absent
    pub gains : has_lock phase ≡ false → has_lock phase' ≡ true → (file ≡ absent) × (file' ≢ absent)
    pub idles : has_lock phase ≡ false → has_lock phase' ≡ false → file' ≡ file

  pub none-read : (info : LockInfo) → read_lock_info none ≢ some info
  unfolding read_lock_info
  none-read info p = cc

  lock_json-OfBoot :
      (caller : Caller) (a : Answers)
      → caller.start_token ≡ boot
      → OfBoot boot (holds (some (lock_json caller a)))
  unfolding read_lock_info get
  lock_json-OfBoot caller a same info h = cc

  -- An access that leaves the file alone and ends without the lock.
  pub rests-Kept :
      (file : LockFile) (phase phase' : Phase)
      → OfBoot boot file
      → phase' ≢ stealing
      → has_lock phase' ≡ false
      → Kept file phase file phase'
  rests-Kept file phase phase' of_boot calm free = record {
    calm = calm;
    of_boot = of_boot;
    stays = λ p q r. cc;
    gains = λ p q. cc;
    idles = λ p q. refl;
  }

  pub move-Kept :
      (caller : Caller) (a : Answers) (file : LockFile) (phase : Phase)
      → caller.start_token ≡ boot
      → AllAlive a
      → OfBoot boot file
      → phase ≢ stealing
      → Kept file phase
          (move is_pid parse_date caller a file phase).0
          (move is_pid parse_date caller a file phase).1
  unfolding move
  move-Kept caller a absent opening same lives of_boot calm = elim (Option-cases a.open_error) [
    | inl h ↦ rw h (record {
      calm = λ e. cc;
      of_boot = λ info p. absurd (none-read info p);
      stays = λ p q r. cc;
      gains = λ p q. (refl, λ e. cc);
      idles = λ p q. cc;
    })
    | inr (message, h) ↦ rw h (rests-Kept absent opening _ of_boot (λ e. cc) refl)
  ]
  move-Kept caller a (holds text) opening same lives of_boot calm =
      elim (Option-cases a.open_error) [
        | inl h ↦ rw h (rests-Kept (holds text) opening _ of_boot (λ e. cc) refl)
        | inr (message, h) ↦ rw h (rests-Kept (holds text) opening _ of_boot (λ e. cc) refl)
      ]
  move-Kept caller a file reading same lives of_boot calm =
      rw (judges_stale-alive caller a file same lives of_boot)
        (elim (Bool-cases (leb caller.deadline a.now_again)) [
          | inl h ↦ rw h (rests-Kept file reading _ of_boot (λ e. cc) refl)
          | inr h ↦ rw h (rests-Kept file reading _ of_boot (λ e. cc) refl)
        ])
  move-Kept caller a file writing same lives of_boot calm = elim (Bool-cases a.writes) [
    | inl h ↦ rw h (record {
      calm = λ e. cc;
      of_boot = lock_json-OfBoot caller a same;
      stays = λ p q r e. cc;
      gains = λ p q. cc;
      idles = λ p q. cc;
    })
    | inr h ↦ rw h (record {
      calm = λ e. cc;
      of_boot = of_boot;
      stays = λ p q r. r;
      gains = λ p q. cc;
      idles = λ p q. cc;
    })
  ]
  move-Kept caller a file running same lives of_boot calm = record {
    calm = λ e. cc;
    of_boot = of_boot;
    stays = λ p q r. r;
    gains = λ p q. cc;
    idles = λ p q. refl;
  }
  move-Kept caller a file releasing same lives of_boot calm = elim (Bool-cases a.removes) [
    | inl h ↦ rw h (record {
      calm = λ e. cc;
      of_boot = λ info p. absurd (none-read info p);
      stays = λ p q. cc;
      gains = λ p q. cc;
      idles = λ p q. cc;
    })
    | inr h ↦ rw h (rests-Kept file releasing _ of_boot (λ e. cc) refl)
  ]
  move-Kept caller a file crashed same lives of_boot calm =
      rests-Kept file crashed _ of_boot (λ e. cc) refl
  move-Kept caller a file (finished o) same lives of_boot calm =
      rests-Kept file (finished o) _ of_boot (λ e. cc) refl
  move-Kept caller a file stealing same lives of_boot calm = absurd (calm refl)
