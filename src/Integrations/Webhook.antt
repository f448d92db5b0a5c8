-- ===== src/Integrations/Webhook.antt =====
-- app/notifications/alert_webhook.py: the critical alerts that an outside receiver is told of. Redis
-- holds a mark for each alert that has been delivered, until it expires; what Redis and the receiver
-- do for an alert, and the time that passes, come with it.
pub mod Once
use mottainai_ia.Base.{
  ℕ, suc, ◌+◌, ltb, Bool, true, false, ◌&&◌, List, [], ◌∷◌, Option, none, some, keep, if◌then◌else◌,
}
use mottainai_ia.Base.Int.{ℤ}
use mottainai_ia.Text.Case.{Str, codes}
use mottainai_ia.Text.Search.{str_eq, str_mem}
use mottainai_ia.Cache.Keyspace.{notified_alert}

-- A row of the alerts; the identifier as `str` prints it.
pub record Alert : Type 0 where
  pub id : Str
  pub kind : Option Str
  pub priority : Option Str
  pub title : Option Str
  pub store_name : Option Str

-- A post: the receiver answers that it took it; or it does not get it; or it gets it, and its answer
-- is lost or a status of an error.
pub data Reply : Type 0 where
  accepted unreachable lost : Reply

-- What happens around one alert: the time before it, whether Redis answers the check, what becomes of
-- the post and how long it takes, and whether Redis takes the mark.
pub record Weather : Type 0 where
  pub wait : ℕ
  pub checks : Bool
  pub reply : Reply
  pub takes : ℕ
  pub marks : Bool

pub record Post : Type 0 where
  pub empresa_id : ℤ
  pub alert : Alert

-- A post that the receiver has got, and when it was sent.
pub record Delivery : Type 0 where
  pub post : Post
  pub time : ℕ

-- A mark has the time at which it expires; the last one of a key is the first in the list.
pub record Outbox : Type 0 where
  pub now : ℕ
  pub marked : List (Str × ℕ)
  pub delivered : List Delivery

abbrev pub key_of : Post → Str
key_of p = notified_alert p.empresa_id p.alert.id

-- When the mark of a key expires.
unfoldable pub deadline_of : Str → List (Str × ℕ) → Option ℕ
deadline_of key [] = none
deadline_of key ((k, deadline) ∷ marked) =
    if str_eq k key then some deadline else deadline_of key marked

-- `redis.exists(key)`
unfoldable pub exists : ℕ → Option ℕ → Bool
exists now none = false
exists now (some deadline) = ltb now deadline

abbrev pub has_text : Option Str → Str → Bool
has_text none word = false
has_text (some s) word = str_eq s word

-- `alert.get("priority") == "CRITICAL"`
unfoldable pub is_critical : Alert × Weather → Bool
unfolding str_eq
is_critical (a, w) = has_text a.priority (codes "CRITICAL")

abbrev pub deliver : ℕ → Post → Outbox → Outbox
deliver takes p s = record {
  now = s.now + takes;
  marked = s.marked;
  delivered = record { post = p; time = s.now } ∷ s.delivered;
}

abbrev pub posted : Reply → ℕ → Post → Outbox → Bool × Outbox
posted accepted takes p s = (true, deliver takes p s)
posted unreachable takes p s = (false, record s { now = s.now + takes })
posted lost takes p s = (false, deliver takes p s)

-- `send_webhook_notification`, to a receiver that is configured or not.
unfoldable pub send_webhook_notification : Bool → Weather → Post → Outbox → Bool × Outbox
send_webhook_notification configured w p s =
    if configured then posted w.reply w.takes p s else (false, s)

abbrev pub post_of : ℤ → Alert → Post
post_of empresa_id a = record { empresa_id = empresa_id; alert = a }

-- `ttl` is `notification_ttl_seconds`, in the unit of the times.
module _ (ttl : ℕ) where
  abbrev pub with_mark : Weather → Str → Outbox → Outbox
  with_mark w key s = if w.marks then record s { marked = (key, s.now + ttl) ∷ s.marked } else s

  abbrev pub counted : Weather → Str → ℕ → Bool × Outbox → ℕ × Outbox
  counted w key sent (true, s) = (suc sent, with_mark w key s)
  counted w key sent (false, s) = (sent, s)

  -- The body of the loop.
  unfoldable pub notify_one : Bool → Weather → Post → ℕ × Outbox → ℕ × Outbox
  unfolding send_webhook_notification notified_alert deadline_of exists
  notify_one configured w p (sent, s) =
      let s' = record s { now = s.now + w.wait } in
      if w.checks && exists s'.now (deadline_of (key_of p) s'.marked)
      then (sent, s')
      else counted w (key_of p) sent (send_webhook_notification configured w p s')

  unfoldable pub notify_all : Bool → ℤ → List (Alert × Weather) → ℕ × Outbox → ℕ × Outbox
  unfolding notify_one
  notify_all configured empresa_id [] s = s
  notify_all configured empresa_id ((a, w) ∷ alerts) s =
      notify_all configured empresa_id alerts (notify_one configured w (post_of empresa_id a) s)

  unfoldable pub notify_new_critical_alerts :
      Bool → ℤ → List (Alert × Weather) → Outbox → ℕ × Outbox
  unfolding notify_all is_critical
  notify_new_critical_alerts configured empresa_id alerts s =
      notify_all configured empresa_id (keep is_critical alerts) (0, s)
