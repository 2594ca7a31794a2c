-- ===== src/Credentials/Locks.antt =====
-- `_KeyedLocks` of app/infrastructure/credentials/oauth.py, under any interleaving of threads. The
-- guard makes each of its two blocks one step; a `threading.Lock` is a number, and `held` says
-- which of them are locked. `entries` is the dictionary: the lock of a key and its count.
use enterprise_communication.Prelude.{
  ℕ, zero, suc, ◌+◌, ◌-◌, ◌≡◌, Bool, true, false, Option, none, some, List, [], ◌∷◌, ◌++◌, leb,
  ◌==◌, if◌then◌else◌,
}
use enterprise_communication.Credentials.TokenCache.{Key, key_eq}

-- Where a thread stands in `acquire`, with the lock that it has been handed
pub data Thread : Type 0 where
  outside : Thread
  waiting inside leaving : (key : Key) (lock : ℕ) → Thread

pub record Locks : Type 0 where
  pub entries : Key → Option (ℕ × ℕ)
  pub held : ℕ → Bool
  -- the locks that exist are those below
  pub fresh : ℕ

abbrev pub set_entry : Key → Option (ℕ × ℕ) → (Key → Option (ℕ × ℕ)) → Key → Option (ℕ × ℕ)
set_entry key value entries k = if key_eq key k then value else entries k

abbrev pub set_held : ℕ → Bool → (ℕ → Bool) → ℕ → Bool
set_held lock value held l = if l == lock then value else held l

-- `self._locks.get(key, (threading.Lock(), 0))` and the count raised; also the lock handed out
abbrev pub registered : Key → Option (ℕ × ℕ) → Locks → Locks × ℕ
registered key none s = (
  record {
    entries = set_entry key (some (s.fresh, 1)) s.entries;
    held = set_held s.fresh false s.held;
    fresh = suc s.fresh;
  },
  s.fresh,
)
registered key (some (lock, count)) s =
    (record s { entries = set_entry key (some (lock, count + 1)) s.entries }, lock)

unfoldable pub register : Key → Locks → Locks × ℕ
register key s = registered key (s.entries key) s

-- `lock.acquire()`, for a lock that is free, and `lock.release()`
unfoldable pub lock_acquired : ℕ → Locks → Locks
lock_acquired lock s = record s { held = set_held lock true s.held }

unfoldable pub lock_released : ℕ → Locks → Locks
lock_released lock s = record s { held = set_held lock false s.held }

-- The block under the guard in `finally`; a key that is not there is a `KeyError`.
abbrev pub unregistered : Key → Option (ℕ × ℕ) → Locks → Locks
unregistered key none s = s
unregistered key (some (current, count)) s =
    if leb count 1
    then record s { entries = set_entry key none s.entries }
    else record s { entries = set_entry key (some (current, count - 1)) s.entries }

unfoldable pub unregister : Key → Locks → Locks
unregister key s = unregistered key (s.entries key) s

-- One step of one thread
pub data Move (s : Locks) : Thread → Locks → Thread → Type 0 where
  enter : (key : Key) → Move s outside (register key s).0 (waiting key (register key s).1)
  take_lock :
      (key : Key) (lock : ℕ)
      → s.held lock ≡ false
      → Move s (waiting key lock) (lock_acquired lock s) (inside key lock)
  release :
      (key : Key) (lock : ℕ) → Move s (inside key lock) (lock_released lock s) (leaving key lock)
  exit : (key : Key) (lock : ℕ) → Move s (leaving key lock) (unregister key s) outside

pub record System : Type 0 where
  pub locks : Locks
  pub threads : List Thread

pub data Step (s : System) : System → Type 0 where
  pick :
      (before after : List Thread) (t t' : Thread) (locks : Locks)
      → s.threads ≡ before ++ t ∷ after
      → Move s.locks t locks t'
      → Step s (record { locks = locks; threads = before ++ t' ∷ after })

-- `__init__`, with the threads outside
abbrev pub no_locks : Locks
no_locks = record { entries = λ key. none; held = λ lock. false; fresh = 0 }

abbrev pub all_outside : ℕ → List Thread
all_outside zero = []
all_outside (suc n) = outside ∷ all_outside n

pub data Reach (n : ℕ) : System → Type 0 where
  start : Reach n (record { locks = no_locks; threads = all_outside n })
  later : {s t : System} → Reach n s → Step s t → Reach n t
