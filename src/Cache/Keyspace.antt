-- ===== src/Cache/Keyspace.antt =====
-- app/cache/keyspace.py: the Redis key of each kind of entry. The proofs are in the module below.
pub mod Distinct
use mottainai_ia.Base.{◌++◌}
use mottainai_ia.Base.Int.{ℤ}
use mottainai_ia.Text.Case.{Str, codes}
use mottainai_ia.Text.Decimal.{str_ℤ}

abbrev pub prefix : Str
prefix = codes "mottainai:v1"

abbrev pub colon : Str
colon = codes ":"

unfoldable pub rate_limit : ℤ → ℤ → Str
rate_limit empresa_id usuario_id =
    prefix ++ (codes ":rate-limit:" ++ (str_ℤ empresa_id ++ (colon ++ str_ℤ usuario_id)))

unfoldable pub endpoint_rate_limit : Str → ℤ → ℤ → Str
endpoint_rate_limit scope empresa_id usuario_id =
    prefix
    ++ (codes ":rate-limit:"
        ++ (scope ++ (colon ++ (str_ℤ empresa_id ++ (colon ++ str_ℤ usuario_id)))))

unfoldable pub notification_inbox : ℤ → ℤ → Str
notification_inbox empresa_id usuario_id =
    prefix ++ (codes ":notification:inbox:" ++ (str_ℤ empresa_id ++ (colon ++ str_ℤ usuario_id)))

unfoldable pub notification_unread : ℤ → ℤ → Str
notification_unread empresa_id usuario_id =
    prefix ++ (codes ":notification:unread:" ++ (str_ℤ empresa_id ++ (colon ++ str_ℤ usuario_id)))

unfoldable pub notification : ℤ → ℤ → Str → Str
notification empresa_id usuario_id notification_id =
    prefix
    ++ (codes ":notification:data:"
        ++ (str_ℤ empresa_id ++ (colon ++ (str_ℤ usuario_id ++ (colon ++ notification_id)))))

unfoldable pub rag_result : ℤ → Str → Str
rag_result empresa_id query_hash =
    prefix ++ (codes ":rag:" ++ (str_ℤ empresa_id ++ (colon ++ query_hash)))

unfoldable pub notified_alert : ℤ → Str → Str
notified_alert empresa_id alert_id =
    prefix ++ (codes ":alert-webhook-sent:" ++ (str_ℤ empresa_id ++ (colon ++ alert_id)))

unfoldable pub revoked_token : Str → Str
revoked_token jti = prefix ++ (codes ":auth:revoked:" ++ jti)

unfoldable pub idempotency : ℤ → Str → Str
idempotency empresa_id key =
    prefix ++ (codes ":idempotency:" ++ (str_ℤ empresa_id ++ (colon ++ key)))
