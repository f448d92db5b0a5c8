-- ===== src/Cache/Notifications.antt =====
-- app/cache/notifications.py: the inbox of a user in Redis, a hash per notification with a sorted
-- set of identifiers and a counter of the unread ones. The Redis commands are parameters; each kind
-- of key is used with one type of value. The texts of the hash are held as the values they print,
-- and a script is one step, as Redis runs it. `get_inbox` is left out.
pub mod Lifecycle
use mottainai_ia.Base.{
  ℕ, suc, ◌+◌, ◌-◌, ◌*◌, ◌≤◌, ◌<◌, ◌≡◌, Bool, true, false, not, ◌||◌, Option, none, some, length,
  ltb, ◌==◌, if◌then◌else◌,
}
use mottainai_ia.Base.Int.{ℤ, pos, negsuc, eqb_ℤ}
use mottainai_ia.Text.Case.{Str, codes}
use mottainai_ia.Text.Search.{str_eq, has_code}
use mottainai_ia.Cache.Keyspace.{notification, notification_inbox, notification_unread}

pub record Notification : Type 0 where
  pub id : Str
  pub title : Str
  pub body : Str
  pub priority : ℕ
  pub status : Str
  pub created_at : ℕ

-- What HGETALL, ZSCORE and GET answer.
pub record View : Type 0 where
  pub hash : Str → Option Notification
  pub score : Str → Str → Option ℕ
  pub counter : Str → Option ℕ

abbrev pub put {ℓ} : {A : Type ℓ} → Str → A → (Str → A) → Str → A
put k v f x = if str_eq x k then v else f x

-- A missing counter reads as '0'.
abbrev pub or_zero : Option ℕ → ℕ
or_zero none = 0
or_zero (some n) = n

pub record Inboxes : Type 1 where
  pub Store : Type 0
  pub view : Store → View
  pub hset : Str → Notification → Store → Store
  -- HSET of the field `status` of a hash that is there.
  pub hset_status : Str → Str → Store → Store
  pub zadd : Str → ℕ → Str → Store → Store
  pub incr : Str → Store → Store
  pub decr : Str → Store → Store
  pub expire : Str → ℕ → Store → Store
  pub view_hset :
      (k : Str) (n : Notification) (s : Store)
      → view (hset k n s) ≡ record (view s) { hash = put k (some n) (view s).hash }
  pub view_hset_status :
      (k value : Str) (n : Notification) (s : Store)
      → (view s).hash k ≡ some n
      → view (hset_status k value s)
        ≡ record (view s) { hash = put k (some (record n { status = value })) (view s).hash }
  pub view_zadd :
      (k member : Str) (points : ℕ) (s : Store)
      → view (zadd k points member s) ≡ record (view s) {
        score = put k (put member (some points) ((view s).score k)) (view s).score;
      }
  pub view_incr :
      (k : Str) (s : Store)
      → view (incr k s) ≡ record (view s) {
        counter = put k (some (suc (or_zero ((view s).counter k)))) (view s).counter;
      }
  pub view_decr :
      (k : Str) (s : Store)
      → 0 < or_zero ((view s).counter k)
      → view (decr k s) ≡ record (view s) {
        counter = put k (some (or_zero ((view s).counter k) - 1)) (view s).counter;
      }
  -- A key with a positive time to live is still there.
  pub view_expire :
      (k : Str) (seconds : ℕ) (s : Store) → 0 < seconds → view (expire k seconds s) ≡ view s

-- `_validate_id` raises on `none`.
unfoldable pub validate_id : Str → Option Str
validate_id value =
    if (length value == 0) || (has_code b':' value || ltb 128 (length value))
    then none
    else some value

-- `notification_id or uuid4().hex`
abbrev pub chosen_id : Option Str → Str → Str
chosen_id none uuid = uuid
chosen_id (some id) uuid = if length id == 0 then uuid else id

abbrev pub is_present : Option Notification → Bool
is_present none = false
is_present (some n) = true

module _ (redis : Inboxes) where
  open redis use {Store, view, hset, hset_status, zadd, incr, decr, expire}

  -- The script's keys, then the notification, its time to live and its score. The counter that the
  -- script answers is not used by the caller.
  unfoldable pub create_script : Str → Str → Str → Notification → ℕ → ℕ → Store → Store
  create_script entry inbox unread n ttl points s =
      let is_new = not (is_present ((view s).hash entry)) in
      let stored = expire entry ttl (hset entry n s) in
      let listed = expire inbox ttl (zadd inbox points n.id stored) in
      let counted = if is_new then incr unread listed else listed in expire unread ttl counted

  unfoldable pub read_script : Str → Str → Store → ℤ × Store
  read_script entry unread s =
      let s' = hset_status entry (codes "read") s in
      (pos 1, if ltb 0 (or_zero ((view s').counter unread)) then decr unread s' else s')

  unfoldable pub by_status : Str → Str → Option Notification → Store → ℤ × Store
  unfolding read_script
  by_status entry unread none s = (negsuc 0, s)
  by_status entry unread (some n) s =
      if str_eq n.status (codes "read")
      then (pos 2, s)
      else if not (str_eq n.status (codes "unread"))
      then (negsuc 0, s)
      else read_script entry unread s

  unfoldable pub mark_read_script : Str → Str → Str → Str → Store → ℤ × Store
  unfolding by_status
  mark_read_script inbox entry unread id s = elim ((view s).score inbox id) [
    | none ↦ (negsuc 0, s)
    | some points ↦ by_status entry unread ((view s).hash entry) s
  ]

  unfoldable pub get_unread_count : ℤ → ℤ → Store → ℕ
  get_unread_count empresa_id usuario_id s =
      or_zero ((view s).counter (notification_unread empresa_id usuario_id))

  -- ValueError is `none`: nothing was sent to Redis.
  unfoldable pub mark_as_read : ℤ → ℤ → Str → Store → Option (Bool × Store)
  unfolding mark_read_script
  mark_as_read empresa_id usuario_id notification_id s = elim (validate_id notification_id) [
    | none ↦ none
    | some id ↦
        let (changed, s') =
          mark_read_script (notification_inbox empresa_id usuario_id)
            (notification empresa_id usuario_id id) (notification_unread empresa_id usuario_id) id
            s in
        some (eqb_ℤ changed (pos 1), s')
  ]

  -- The arguments of the function, then the new identifier, the time and the setting.
  unfoldable pub create_notification :
      ℤ → ℤ → Str → Str → ℕ → Option Str → Str → ℕ → ℕ → Store → Option (Notification × Store)
  unfolding create_script
  create_notification empresa_id usuario_id title body priority notification_id uuid now ttl s =
      if not (priority == 1 || (priority == 2 || priority == 3))
      then none
      else elim (validate_id (chosen_id notification_id uuid)) [
        | none ↦ none
        | some id ↦
            let made : Notification = record {
              id = id;
              title = title;
              body = body;
              priority = priority;
              status = codes "unread";
              created_at = now;
            } in
            some (
              made,
              create_script (notification empresa_id usuario_id id)
                  (notification_inbox empresa_id usuario_id)
                  (notification_unread empresa_id usuario_id) made ttl
                  (priority * 10000000000 + now) s,
            )
      ]
