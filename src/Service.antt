-- ===== src/Service.antt =====
-- The process-wide state: the packet counters and the structured records that were logged. A method
-- may raise; what it did before stays done.
use floodgate.Common.{String, Option, none, some, List, [], ◌∷◌, ◌++◌}
use floodgate.Value.{Fields}
use floodgate.Stats
use floodgate.Stats.{Stats, Counter}

pub data Level : Type 0 where
  info warning error : Level

-- A record of the logger, by its level, its message and its `extra` dict.
pub record LogRecord : Type 0 where
  pub level : Level
  pub message : String
  pub extra : Fields

pub record Service : Type 0 where
  pub stats : Stats
  pub records : List LogRecord

abbrev pub start : Service
start = record { stats = Stats.init; records = [] }

-- `none` is an exception.
abbrev pub Exec : Type 0 → Type 0
Exec A = Service → Option A × Service

abbrev pub pure : {A : Type 0} → A → Exec A
pure a s = (some a, s)

abbrev pub lift : {A : Type 0} → Option A → Exec A
lift o s = (o, s)

abbrev pub count : Counter → Exec (Unit {0})
count c s = (some tt, record s { stats = Stats.inc c s.stats })

abbrev pub log : Level → String → Fields → Exec (Unit {0})
log level message extra s = (
  some tt,
  record s {
    records = s.records ++ record { level = level; message = message; extra = extra } ∷ [];
  },
)

abbrev pub continue : {A B : Type 0} → Option A → (A → Exec B) → Exec B
continue (some a) f s = f a s
continue none f s = (none, s)

infixl 10 ◌>>=◌ ◌>>◌
abbrev pub ◌>>=◌ : {A B : Type 0} → Exec A → (A → Exec B) → Exec B
◌>>=◌ m f s = let (o, s') = m s in continue o f s'

abbrev pub ◌>>◌ : {B : Type 0} → Exec (Unit {0}) → Exec B → Exec B
m >> k = m >>= λ _. k
