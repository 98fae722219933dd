-- ===== src/Quota/Noop.antt =====
-- oplog_db.go: the log middleware for a database that may be missing.
use middle.Prelude.{
  Bool, true, false, List, [], ◌∷◌, Option, none, some, ◌≡◌, refl, Bool-cases, inl, inr,
}
use middle.Prelude.Int.{ℤ}
use middle.Text.{Text}
use middle.Http.{Context}
use middle.Body.{Stream}
use middle.Config.{Config}
use middle.Quota.{Service, Endpoint, Event, handled, reads_only, operate_log_middleware}

-- The pool of open4go's db, if there is one, gives a handle for a name or an error.
abbrev pub Pool : Type 0 → Type 0
Pool Db = Option (Text → Option Db)

unfoldable pub must_oplog_db : {Db : Type 0} → Pool Db → Text → Option Db
must_oplog_db none name = none
must_oplog_db (some get_handler) name = get_handler name

abbrev pub has_handle : {Db : Type 0} → Option Db → Bool
has_handle none = false
has_handle (some db) = true

-- `OperateLogOrNoop` on the handle: without one it only calls the handlers.
unfoldable pub operate_log_or_noop :
    {Db : Type 0}
    → Service
    → Endpoint
    → Config
    → Option Db
    → Context
    → Text
    → ℤ
    → Option Stream
    → List Event
operate_log_or_noop net e cfg none c content_type len body = handled body ∷ []
operate_log_or_noop net e cfg (some db) c content_type len body =
    operate_log_middleware net e cfg true c content_type len body

-- A missing database is as if OperateLogMiddleware had been given none: no quota is asked, nothing is
-- captured and no row is saved.
pub operate_log_or_noop-operate_log_middleware :
    {Db : Type 0} (net : Service) (e : Endpoint) (cfg : Config) (db : Option Db) (c : Context)
    (content_type : Text) (len : ℤ) (body : Option Stream)
    → operate_log_or_noop net e cfg db c content_type len body
      ≡ operate_log_middleware net e cfg (has_handle db) c content_type len body
unfolding operate_log_or_noop operate_log_middleware
operate_log_or_noop-operate_log_middleware net e cfg none c content_type len body =
    elim (Bool-cases (reads_only c.method)) [ inl r ↦ rw r refl | inr r ↦ rw r refl ]
operate_log_or_noop-operate_log_middleware net e cfg (some db) c content_type len body = refl
