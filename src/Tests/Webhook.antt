-- ===== src/Tests/Webhook.antt =====
-- Three alerts of company 7, two of them critical, of which the receiver takes one.
use mottainai_ia.Base.{
  ◌+◌, ◌≡◌, ◌⊎◌, inl, inr, refl, true, false, List, [], ◌∷◌, Option, none, some, All, keep, length,
}
use mottainai_ia.Base.Int.{pos}
use mottainai_ia.Text.Case.{Str, codes}
use mottainai_ia.Text.Search.{str_eq}
use mottainai_ia.Text.Decimal.{str_ℤ}
use mottainai_ia.Cache.Keyspace.{notified_alert}
use mottainai_ia.Integrations.Webhook.{
  Alert, Reply, accepted, unreachable, lost, Weather, Delivery, Outbox, key_of, deadline_of, exists,
  is_critical, send_webhook_notification, notify_one, post_of, notify_all,
  notify_new_critical_alerts,
}
use mottainai_ia.Integrations.Webhook.Once.{
  IsOnce, Known, is_taken, notify_new_critical_alerts-IsOnce,
}

abbrev alert : Str → Option Str → Alert
alert id priority = record {
  id = id;
  kind = some (codes "VENCIMENTO");
  priority = priority;
  title = none;
  store_name = some (codes "Norte");
}

abbrev calm : Reply → Weather
calm reply = record { wait = 1; checks = true; reply = reply; takes = 2; marks = true }

abbrev alerts : List (Alert × Weather)
alerts =
    (alert (codes "11") (some (codes "CRITICAL")), calm accepted)
    ∷ (alert (codes "12") (some (codes "LOW")), calm accepted)
    ∷ (alert (codes "13") (some (codes "CRITICAL")), calm unreachable)
    ∷ []

abbrev silent : Outbox
silent = record { now = 100; marked = []; delivered = [] }

abbrev first : Delivery
first = record { post = post_of (pos 7) (alert (codes "11") (some (codes "CRITICAL"))); time = 101 }

abbrev mark : Str
mark = codes "mottainai:v1:alert-webhook-sent:7:11"

abbrev told : Outbox
told = record { now = 106; marked = (mark, 163) ∷ []; delivered = first ∷ [] }

tells_one : notify_new_critical_alerts 60 true (pos 7) alerts silent ≡ (1, told)
unfolding notify_new_critical_alerts notify_all notify_one send_webhook_notification is_critical
    notified_alert str_ℤ deadline_of exists str_eq
tells_one = refl

tells_no_more :
    notify_new_critical_alerts 60 true (pos 7) alerts told ≡ (0, record told { now = 110 })
unfolding notify_new_critical_alerts notify_all notify_one send_webhook_notification is_critical
    notified_alert str_ℤ deadline_of exists str_eq
tells_no_more = refl

-- The mark has expired.
tells_again :
    (notify_new_critical_alerts 60 true (pos 7) alerts (record told { now = 162 })).1.delivered
    ≡ record first { time = 163 } ∷ first ∷ []
unfolding notify_new_critical_alerts notify_all notify_one send_webhook_notification is_critical
    notified_alert str_ℤ deadline_of exists str_eq
tells_again = refl

-- An answer that is lost leaves no mark: the receiver gets the alert twice.
tells_twice :
    (notify_new_critical_alerts 60 true
      (pos 7)
      ((alert (codes "11") (some (codes "CRITICAL")), calm lost)
        ∷ (alert (codes "11") (some (codes "CRITICAL")), calm accepted)
        ∷ [])
      silent).1.delivered
    ≡ record first { time = 104 } ∷ first ∷ []
unfolding notify_new_critical_alerts notify_all notify_one send_webhook_notification is_critical
    notified_alert str_ℤ deadline_of exists str_eq
tells_twice = refl

-- The rows of `get_stock_alerts` have no priority.
tells_nothing :
    notify_new_critical_alerts 60 true
      (pos 7)
      ((alert (codes "11") none, calm accepted) ∷ [])
      silent
    ≡ (0, silent)
unfolding notify_new_critical_alerts notify_all is_critical
tells_nothing = refl

notify_new_critical_alerts-IsOnce_example :
    (let after = notify_new_critical_alerts 60 true (pos 7) alerts silent in
      IsOnce 60 after.1
      × (after.0 + 0 ≡ length after.1.delivered)
      × All
          (λ p.
            (is_taken true p.1 ≡ false) ⊎ Known 60 (key_of (post_of (pos 7) p.0)) after.1.marked)
          (keep is_critical alerts))
notify_new_critical_alerts-IsOnce_example =
    notify_new_critical_alerts-IsOnce 60 true (pos 7) alerts silent
      ((refl, refl, inl refl), ((refl, refl, inl refl), ((refl, refl, inr refl), tt))) (tt, tt)
