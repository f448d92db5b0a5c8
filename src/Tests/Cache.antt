-- ===== src/Tests/Cache.antt =====
-- Idempotency, the rate limit and the names of keys.
use mottainai_ia.Base.{
  ℕ, ◌<◌, Pairwise, ◌≡◌, refl, List, [], ◌∷◌, Option, none, some, false, true, suc, arith,
}
use mottainai_ia.Base.Int.{pos}
use mottainai_ia.Text.Case.{Str, codes}
use mottainai_ia.Text.Search.{str_eq, has_code}
use mottainai_ia.Text.Decimal.{str_ℕ, str_ℤ}
use mottainai_ia.Cache.Keyspace.{notification, notification_inbox, notification_unread}
use mottainai_ia.Cache.Notifications.{
  Notification, View, validate_id, create_notification, create_script, read_script, mark_as_read,
  get_unread_count,
}
use mottainai_ia.Cache.Notifications.Lifecycle.{mark_as_read-create}
use mottainai_ia.Cache.RateLimit.{RateLimitSettings, Call, check_key}
use mottainai_ia.Cache.RateLimit.Window.{check-counts_window, after}
use mottainai_ia.Cache.Idempotency.{
  Event, answer, fn_result, World, alive, run, initial, finished, returned,
}
use mottainai_ia.Cache.Idempotency.Once.{run-applied-Spaced, run_alone}
use mottainai_ia.Cache.Idempotency.Invariant.{Spaced}
use mottainai_ia.Tests.Instances.{sets, cells, inboxes, take_lock, free_lock}

-- Two workers that race for the lock: the first runs the write, the second finds its result. A third
-- one, after the sixty ticks of the entry, writes again.
abbrev race : List (ℕ × ℕ × Event ℕ)
race =
    (1, 1, answer)
    ∷ (0, 2, answer)
    ∷ (0, 1, answer)
    ∷ (1, 1, answer)
    ∷ (3, 1, fn_result 7)
    ∷ (0, 1, answer)
    ∷ (2, 2, answer)
    ∷ (0, 2, answer)
    ∷ (0, 1, answer)
    ∷ (60, 3, answer)
    ∷ (0, 3, answer)
    ∷ (0, 3, answer)
    ∷ (1, 3, fn_result 8)
    ∷ []

writes_twice : (run cells 60 race (initial cells 60 100 (none, none))).applied ≡ 168 ∷ 105 ∷ []
unfolding run alive take_lock free_lock
writes_twice = refl

run-applied-Spaced_example :
    Pairwise (Spaced 60) (run cells 60 race (initial cells 60 100 (none, none))).applied
run-applied-Spaced_example = run-applied-Spaced cells 60 race 100 (none, none)

abbrev alone : World cells
alone =
    run cells 60
      ((0, 3, answer)
        ∷ (1, 3, answer)
        ∷ (0, 3, answer)
        ∷ (2, 3, fn_result 9)
        ∷ (1, 3, answer)
        ∷ (0, 3, answer)
        ∷ [])
      (initial cells 60 100 (none, none))

run_alone_example :
    (alone.phase 3 ≡ finished (returned 9))
    × (cells.entry alone.store ≡ some (9, 164))
    × (cells.holder alone.store ≡ none)
    × (alone.applied ≡ 103 ∷ [])
unfolding alive
run_alone_example = run_alone cells 60 3 9 100 0 1 0 2 1 0 (none, none) refl refl

abbrev two_per_minute : RateLimitSettings
two_per_minute = record { rate_limit_window_seconds = 60; rate_limit_rpm = 2 }

abbrev call : ℕ → Call
call n = record { now_ms = n; token = codes "a" }

some_window : 0 < 60
some_window = omega arith

check-counts_window_example :
    (check_key sets two_per_minute (codes "k") 2 (call 70000) (
      after sets two_per_minute
        (codes "k")
        2
        some_window
        (call 30000 ∷ call 20000 ∷ call 1000 ∷ [])
        (λ t k. []))).0
    ≡ record { allowed = false; request_count = 3; limit = 2 }
unfolding str_eq str_ℕ
check-counts_window_example =
    check-counts_window sets two_per_minute (codes "k") 2 some_window (call 70000)
      (call 30000 ∷ call 20000 ∷ call 1000 ∷ []) (λ t k. []) (λ t. refl)
      (
        (omega arith, (omega arith, (omega arith, tt))),
        refl,
        ((omega arith, (omega arith, tt)), refl, ((omega arith, tt), refl, (tt, refl, tt))),
      )

abbrev key_name : Str
key_name = codes "order-17"

-- The inbox of a user with nothing in it.
abbrev no_notifications : View
no_notifications = record { hash = λ k. none; score = λ k m. none; counter = λ k. none }

abbrev call_to : Str → Option (Notification × View)
call_to title =
    create_notification inboxes (pos 4) (pos 9) title (codes "Lote 7") 2 (some key_name) (codes "x")
      1700 604800 no_notifications

abbrev made : Notification
made = record {
  id = key_name;
  title = codes "Validade";
  body = codes "Lote 7";
  priority = 2;
  status = codes "unread";
  created_at = 1700;
}

abbrev made_in : View
made_in =
    create_script inboxes (notification (pos 4) (pos 9) key_name)
      (notification_inbox (pos 4) (pos 9)) (notification_unread (pos 4) (pos 9)) made 604800
      20000001700 no_notifications

makes : call_to (codes "Validade") ≡ some (made, made_in)
unfolding create_notification validate_id has_code
makes = refl

mark_as_read-create_example :
    (read : View) × (mark_as_read inboxes (pos 4) (pos 9) key_name made_in ≡ some (true, read))
    × (mark_as_read inboxes (pos 4) (pos 9) key_name read ≡ some (false, read))
    × (get_unread_count inboxes (pos 4) (pos 9) made_in
        ≡ suc (get_unread_count inboxes (pos 4) (pos 9) no_notifications))
    × (get_unread_count inboxes (pos 4) (pos 9) read
        ≡ get_unread_count inboxes (pos 4) (pos 9) no_notifications)
mark_as_read-create_example =
    mark_as_read-create inboxes (pos 4) (pos 9) (codes "Validade") (codes "Lote 7") 2
      (some key_name) (codes "x") 1700 604800 no_notifications made_in made (omega arith) refl makes

-- Made again under its identifier after it was read, a notification is unread and not counted.
abbrev made_again : View
made_again =
    create_script inboxes (notification (pos 4) (pos 9) key_name)
      (notification_inbox (pos 4) (pos 9)) (notification_unread (pos 4) (pos 9)) made 604800
      20000001700
      (read_script inboxes (notification (pos 4) (pos 9) key_name)
        (notification_unread (pos 4) (pos 9)) made_in).1

uncounted :
    (made_again.hash (notification (pos 4) (pos 9) key_name) ≡ some made)
    × (get_unread_count inboxes (pos 4) (pos 9) made_again ≡ 0)
unfolding create_script read_script get_unread_count notification notification_unread str_ℤ str_eq
uncounted = (refl, refl)
