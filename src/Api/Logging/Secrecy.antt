-- ===== src/Api/Logging/Secrecy.antt =====
-- What `redact` hides and what it keeps.
use honor.Common.{◌∷◌, String, ◌≡◌, refl, ap, true, some}
use honor.Common.Text.{codes}
use honor.Api.Json.{Value, list, tuple, dict, Items, nil, cons, Fields, end, field, keys}
use honor.Api.Logging.Patterns.{is_secret_key}
use honor.Api.Logging.{redact, redact_items, redact_fields, Event, given, log_event}

-- Two values that differ at most in what stands under a secret key.
mutual
  pub data Alike : Value → Value → Type 0 where
    same : (v : Value) → Alike v v
    lists : {vs ws : Items} → AlikeItems vs ws → Alike (list vs) (list ws)
    tuples : {vs ws : Items} → AlikeItems vs ws → Alike (tuple vs) (tuple ws)
    dicts : {fs gs : Fields} → AlikeFields fs gs → Alike (dict fs) (dict gs)

  pub data AlikeItems : Items → Items → Type 0 where
    no_items : AlikeItems nil nil
    item :
        {v w : Value} {vs ws : Items}
        → Alike v w
        → AlikeItems vs ws
        → AlikeItems (cons v vs) (cons w ws)

  pub data AlikeFields : Fields → Fields → Type 0 where
    no_fields : AlikeFields end end
    shown :
        (k : String) {v w : Value} {fs gs : Fields}
        → Alike v w
        → AlikeFields fs gs
        → AlikeFields (field k v fs) (field k w gs)
    hidden :
        (k : String) (v w : Value) {fs gs : Fields}
        → is_secret_key (codes k) ≡ true
        → AlikeFields fs gs
        → AlikeFields (field k v fs) (field k w gs)

mutual
  unfolding redact

  redact_alike : {v w : Value} → Alike v w → redact v ≡ redact w
  redact_alike (same v) = refl
  redact_alike (lists a) = ap list (items_alike a)
  redact_alike (tuples a) = ap tuple (items_alike a)
  redact_alike (dicts a) = ap dict (fields_alike a)

  items_alike : {vs ws : Items} → AlikeItems vs ws → redact_items vs ≡ redact_items ws
  items_alike no_items = refl
  items_alike (item a as_items) = rw (redact_alike a, items_alike as_items) refl

  fields_alike : {fs gs : Fields} → AlikeFields fs gs → redact_fields fs ≡ redact_fields gs
  fields_alike no_fields = refl
  fields_alike (shown k a more) = rw (redact_alike a, fields_alike more) refl
  fields_alike (hidden k v w h more) = rw (h, fields_alike more) refl

-- `redact` keeps the keys of a dict in their order.
pub keys-redact : (fs : Fields) → keys (redact_fields fs) ≡ keys fs
unfolding redact keys
keys-redact end = refl
keys-redact (field k v fs) = ap (λ ks. k ∷ ks) (keys-redact fs)

-- Two events that differ only in values that stand under secret keys of their metadata, at any
-- depth, give the same log line.
pub log_event-hides :
    (timestamp : String) (e : Event) {fs : Fields}
    → AlikeFields (given e.metadata) fs
    → log_event timestamp (record e { metadata = some fs }) ≡ log_event timestamp e
unfolding log_event redact
log_event-hides timestamp e a = rw (fields_alike a) refl
