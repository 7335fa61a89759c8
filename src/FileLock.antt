-- ===== src/FileLock.antt =====
-- lib/file-lock.mjs: what a lock file says of its owner, and when the lock counts as stale. What
-- `Number` and `Date.parse` make of a text is a parameter. The number of an epoch token is its
-- exact decimal value, and a moment is a number of milliseconds since 1970.
pub mod Access
pub mod Acquire
pub mod Exclusion
pub mod Reclaim
use Prim.Native.Char.{code}
use devmate.Prelude.{
  ℕ, ◌+◌, ◌-◌, ◌*◌, String, Bool, true, false, not, ◌&&◌, Option, none, some, if◌then◌else◌, ltb,
  leb, ◌==◌,
}
use devmate.Prelude.Text.{str_eq}
use devmate.Json.{Json, str, obj, Fields, end, field, get}

-- `DEFAULT_STALE_RECLAIM_MS` and `RECYCLE_BOOT_TOLERANCE_SEC`.
abbrev pub default_stale_reclaim_ms : ℕ
default_stale_reclaim_ms = 30000

abbrev pub recycle_boot_tolerance_sec : ℕ
recycle_boot_tolerance_sec = 60

pub record LockInfo : Type 0 where
  pub owner : String
  pub ts : String
  pub start_token : Option String

abbrev text? : Option Json → Option String
text? (some (str s)) = some s
text? _ = none

abbrev info_from : Option String → Option String → Option String → Option LockInfo
info_from (some owner) (some ts) token =
    some (record { owner = owner; ts = ts; start_token = token })
info_from _ _ token = none

-- `readLockInfo`, on what `JSON.parse` makes of the file: none where it is absent, empty or no JSON.
unfoldable pub read_lock_info : Option Json → Option LockInfo
read_lock_info (some (obj fs)) =
    info_from (text? (get fs "owner")) (text? (get fs "ts")) (text? (get fs "startToken"))
read_lock_info _ = none

-- `ParsedToken`.
pub data BootToken : Type 0 where
  bootid : String → BootToken
  epoch : ℕ → BootToken

-- What follows a prefix.
abbrev pub after : String → String → Option String
after String.[] s = some s
after (String.◌∷◌ _ _) String.[] = none
after (String.◌∷◌ p ps) (String.◌∷◌ c s) =
    let rest = after ps s in if code p == code c then rest else none

-- `/^\d+$/` and the number, from the digits read so far.
abbrev digits : ℕ → String → Option ℕ
digits n String.[] = some n
digits n (String.◌∷◌ c s) =
    let rest = digits (n * 10 + (code c - b'0')) s in
    if leb b'0' (code c) && leb (code c) b'9' then rest else none

abbrev epoch_of : String → Option BootToken
epoch_of String.[] = none
epoch_of (String.◌∷◌ c s) = elim (digits 0 (String.◌∷◌ c s)) [
  | none ↦ none
  | some n ↦ some (epoch n)
]

abbrev boot_id_of : String → Option BootToken
boot_id_of id = if str_eq id "" then none else some (bootid id)

abbrev or_whole : String → Option String → String
or_whole s none = s
or_whole s (some rest) = rest

-- `parseBootToken`.
unfoldable pub parse_boot_token : Option String → Option BootToken
parse_boot_token none = none
parse_boot_token (some raw) = elim (after "bootid:" raw) [
  | some id ↦ boot_id_of id
  | none ↦ epoch_of (or_whole raw (after "epoch:" raw))
]

-- Tokens of one scheme that show two boots.
abbrev pub differ : Option BootToken → Option BootToken → Bool
differ (some (bootid a)) (some (bootid b)) = not (str_eq a b)
differ (some (epoch a)) (some (epoch b)) = ltb recycle_boot_tolerance_sec ((a - b) + (b - a))
differ _ _ = false

-- `ownerLooksRecycled`; `is_pid` is whether `Number(owner)` is a positive integer.
unfoldable pub owner_looks_recycled : (String → Bool) → LockInfo → String → Bool
owner_looks_recycled is_pid info current =
    if is_pid info.owner
    then differ (parse_boot_token info.start_token) (parse_boot_token (some current))
    else false

-- The outcome of the liveness probe: a probe that throws counts as alive.
abbrev pub or_alive : Option Bool → Bool
or_alive none = true
or_alive (some alive) = alive

-- `isLockStale`. The age is `now - started`, which is less than the bound also where it is negative.
unfoldable pub is_lock_stale :
    (is_pid : String → Bool) (parse_date : String → Option ℕ)
    → Option LockInfo
    → (now bound : ℕ) → (String → Option Bool)
    → String
    → Bool
is_lock_stale is_pid parse_date none now bound alive current = false
is_lock_stale is_pid parse_date (some info) now bound alive current = elim (parse_date info.ts) [
  | none ↦ false
  | some started ↦
      if ltb now (started + bound)
      then false
      else if not (or_alive (alive info.owner))
      then true
      else owner_looks_recycled is_pid info current
]
