-- ===== src/Tests/Locking.antt =====
-- core/mikrotik_api.py: two threads that write to one router, one after the other.
use mikrotik_bot.Prelude.{ℕ, ◌≡◌, ◌≢◌, refl, ◌⊎◌, true, false, none, some, string_eq}
use mikrotik_bot.Dict.{get, set}
use mikrotik_bot.Client.{Texts}
use mikrotik_bot.Locks.{
  is_write_command, last_part, idle, waiting, System, Reach, start, later, pick, call, enter,
  absent, create, leave, acquire, known,
}
use mikrotik_bot.Locks.Exclusion.{CanMove, Blocks, writes_exclude, waits_only_for_its_router}

abbrev text : Texts
text = record { lower = λ s. s; strip = λ s. s; int = λ s. none }

reads_and_writes :
    (is_write_command text "ip/hotspot/user/add" ≡ true)
    × (is_write_command text "ip/hotspot/user/print" ≡ false)
    × (is_write_command text "print" ≡ false)
unfolding is_write_command last_part string_eq
reads_and_writes = (refl, refl, refl)

is_write : is_write_command text "user/add" ≡ true
unfolding is_write_command last_part string_eq
is_write = refl

-- thread 0 runs its command, and thread 1 waits for the lock
abbrev two_writers : (s : System) × Reach text s
unfolding get set string_eq
two_writers = (
  _,
  later
      (later
        (later
          (later
            (later
              (later
                (later
                  (later
                    (later (later start (pick 0 (call "a" "user/add")))
                      (pick 0 (enter is_write refl)))
                    (pick 1 (call "a" "user/add")))
                  (pick 0 (absent refl)))
                (pick 0 create))
              (pick 0 (leave {l = 0} refl)))
            (pick 1 (enter is_write refl)))
          (pick 0 (acquire refl)))
        (pick 1 (known 0 refl)))
      (pick 1 (leave {l = 0} refl)),
)

second_waits : two_writers.0.pc 1 ≡ waiting "a" "user/add" 0
unfolding two_writers
second_waits = refl

writes_exclude_example : ◌≡◌ {A = ℕ} 0 0
unfolding two_writers
writes_exclude_example =
    writes_exclude text two_writers.0 two_writers.1 0 0 "a" "user/add" "user/add" (some 0) (some 0)
      refl refl is_write is_write

busy : two_writers.0.pc 1 ≢ idle
unfolding two_writers
busy h = absurd (cc)

waits_only_for_its_router_example :
    CanMove text 1 two_writers.0.mem (two_writers.0.pc 1)
    ⊎ ((j : ℕ) × Blocks text (two_writers.0.pc 1) (two_writers.0.pc j)
        × CanMove text j two_writers.0.mem (two_writers.0.pc j))
waits_only_for_its_router_example =
    waits_only_for_its_router text two_writers.0 two_writers.1 1 busy
