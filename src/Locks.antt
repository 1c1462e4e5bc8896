-- ===== src/Locks.antt =====
-- core/mikrotik_api.py: the write locks of `MikrotikAPI`. Any number of threads call `execute`,
-- `execute_long` and `execute_non_blocking`, and their steps interleave in any order. Thread `i` is
-- at `pc i`; a lock is a number, its address. What a command does while it runs is the body, which
-- calls none of the three again, so that an RLock is never taken twice by its owner. `finally`
-- releases however the body ends.
pub mod Invariant
pub mod Exclusion
use Prim.Native.String.{[], ◌∷◌}
use text.Mathlib.Text.{◌==◌ as str_eq}
use mikrotik_bot.Prelude.{
  ℕ, ◌+◌, ◌≡◌, String, Bool, true, false, not, Option, none, some, List, [], ◌∷◌, if◌then◌else◌,
  string_eq, nat_eqb, is_some, contains, ◌==◌,
}
use mikrotik_bot.Dict.{Dict, get, set}
use mikrotik_bot.Client.{Texts, occurs_in}

-- command.rsplit("/", 1)[-1]
unfoldable pub last_part : String → String
unfolding occurs_in
last_part [] = ""
last_part (c ∷ command) =
    let rest = last_part command in
    if occurs_in "/" command then rest else if occurs_in "/" (c ∷ []) then command else c ∷ command

abbrev pub read_verbs : List String
read_verbs = "print" ∷ "get" ∷ "monitor" ∷ "listen" ∷ "export" ∷ []

-- `_is_write_command`
unfoldable pub is_write_command : Texts → String → Bool
unfolding string_eq
is_write_command text command =
    not (contains read_verbs (text.lower (text.strip (last_part command))))

pub record Shared : Type 0 where
  -- the thread inside `with self._cmd_lock_guard`
  pub guard : Option ℕ
  pub cmd_locks : Dict String ℕ
  -- the address of the next lock that is created
  pub next_lock : ℕ
  pub owner : ℕ → Option ℕ

-- Where a thread is, with its router, its command and the lock it has been given. `looking`,
-- `missing` and `present` are inside `_get_cmd_lock`: before its test, and after each outcome.
pub data Pc : Type 0 where
  idle : Pc
  called looking missing present : String → String → Pc
  waiting : String → String → ℕ → Pc
  running : String → String → Option ℕ → Pc

abbrev pub put : {A : Type 0} → (ℕ → A) → ℕ → A → ℕ → A
put f i a j = if nat_eqb i j then a else f j

-- self._cmd_locks[router_key] = threading.RLock()
abbrev pub created : Shared → String → Shared
created m k = record m {
  cmd_locks = set m.cmd_locks k m.next_lock;
  next_lock = m.next_lock + 1;
  owner = put m.owner m.next_lock none;
}

pub data Move (text : Texts) (i : ℕ) (m : Shared) : Pc → Shared → Pc → Type 0 where
  call : (k c : String) → Move text i m idle m (called k c)
  read :
      {k c : String}
      → is_write_command text c ≡ false
      → Move text i m (called k c) m (running k c none)
  enter :
      {k c : String}
      → is_write_command text c ≡ true
      → m.guard ≡ none
      → Move text i m (called k c) (record m { guard = some i }) (looking k c)
  -- if router_key not in self._cmd_locks
  absent : {k c : String} → get m.cmd_locks k ≡ none → Move text i m (looking k c) m (missing k c)
  known :
      {k c : String} (l : ℕ)
      → get m.cmd_locks k ≡ some l
      → Move text i m (looking k c) m (present k c)
  create : {k c : String} → Move text i m (missing k c) (created m k) (present k c)
  -- return self._cmd_locks[router_key]
  leave :
      {k c : String} {l : ℕ}
      → get m.cmd_locks k ≡ some l
      → Move text i m (present k c) (record m { guard = none }) (waiting k c l)
  acquire :
      {k c : String} {l : ℕ}
      → m.owner l ≡ none
      → Move text i m
          (waiting k c l)
          (record m { owner = put m.owner l (some i) })
          (running k c (some l))
  finish : {k c : String} → Move text i m (running k c none) m idle
  release :
      {k c : String} {l : ℕ}
      → Move text i m (running k c (some l)) (record m { owner = put m.owner l none }) idle

pub record System : Type 0 where
  pub mem : Shared
  pub pc : ℕ → Pc

pub data Step (text : Texts) (s : System) : System → Type 0 where
  pick :
      (i : ℕ) {m : Shared} {p : Pc}
      → Move text i s.mem (s.pc i) m p
      → Step text s (record { mem = m; pc = put s.pc i p })

abbrev pub init : System
init = record {
  mem = record { guard = none; cmd_locks = []; next_lock = 0; owner = λ l. none };
  pc = λ i. idle;
}

pub data Reach (text : Texts) : System → Type 0 where
  start : Reach text init
  later : {s t : System} → Reach text s → Step text s t → Reach text t
