-- ===== src/Observability/Logger.antt =====
-- The logger (src/observability.c). A handler is known by its address and that of its data; what
-- reaches it is a list of the calls made to it.
use grpc_c.Common.{
  ℕ, ◌≡◌, arith, Bool, Option, none, some, List, [], ◌∷◌, ◌++◌, ltb, if◌then◌else◌, append_assoc,
  append-nil, Option-cases, inl, inr, sym,
}

pub data LogLevel : Type 0 where
  debug info warning error : LogLevel

-- The number of a level in the enum.
unfoldable pub rank : LogLevel → ℕ
rank debug = 0
rank info = 1
rank warning = 2
rank error = 3

pub record Handler : Type 0 where
  pub log_func : ℕ
  pub user_data : ℕ

pub record Logger : Type 0 where
  pub min_level : LogLevel
  pub handler : Option Handler

-- A call of a handler.
pub record Delivery : Type 0 where
  pub handler : Handler
  pub level : LogLevel
  pub message : List ℕ

unfoldable pub logger_create : Bool → LogLevel → Option Logger
logger_create ok min_level =
    if ok then some (record { min_level = min_level; handler = none }) else none

unfoldable pub set_handler : Logger → Option Handler → Logger
set_handler logger handler = record logger { handler = handler }

unfoldable pub log : Logger → LogLevel → Option (List ℕ) → List Delivery → List Delivery
unfolding rank
log logger level none sent = sent
log logger level (some message) sent =
    if ltb (rank level) (rank logger.min_level) then sent else (elim logger.handler [
      | none ↦ sent
      | some h ↦ sent ++ (record { handler = h; level = level; message = message }) ∷ []
    ])

-- A message with its level, or a change of the handler.
pub data Use : Type 0 where
  logs : LogLevel → List ℕ → Use
  installs : Option Handler → Use

unfoldable pub use_all : List Use → Logger → List Delivery → Logger × List Delivery
unfolding log set_handler
use_all [] logger sent = (logger, sent)
use_all (logs level message ∷ us) logger sent =
    use_all us logger (log logger level (some message) sent)
use_all (installs h ∷ us) logger sent = use_all us (set_handler logger h) sent

-- The messages that count: those at the least level of the logger or above it that come while a
-- handler is installed, each with that handler.
unfoldable pub wanted : LogLevel → Option Handler → List Use → List Delivery
unfolding rank
wanted least handler [] = []
wanted least handler (installs h ∷ us) = wanted least h us
wanted least handler (logs level message ∷ us) =
    let rest = wanted least handler us in
    elim handler [
      | none ↦ rest
      | some h ↦
          if ltb (rank level) (rank least)
          then rest
          else (record { handler = h; level = level; message = message }) ∷ rest
    ]

-- Over any sequence of messages and changes of the handler, the messages that reach a handler are
-- those that count, in the order in which they were logged, each with the handler that was
-- installed at the time and unchanged.
pub use_all-wanted :
    (us : List Use) (logger : Logger) (sent : List Delivery)
    → (use_all us logger sent).1 ≡ sent ++ wanted logger.min_level logger.handler us
unfolding use_all wanted log set_handler
use_all-wanted [] logger sent = sym (append-nil sent)
use_all-wanted (installs h ∷ us) logger sent = use_all-wanted us (set_handler logger h) sent
use_all-wanted (logs level message ∷ us) logger sent = elim (Option-cases logger.handler) [
  | inl nobody ↦ ground (arith, nobody, use_all-wanted us logger sent)
  | inr (h, installed) ↦
      let d : Delivery = record { handler = h; level = level; message = message } in
      let later = use_all-wanted us logger (sent ++ d ∷ []) in
      let shifted = append_assoc sent (d ∷ []) (wanted logger.min_level logger.handler us) in
      ground (arith, installed, use_all-wanted us logger sent, later, shifted)
]
