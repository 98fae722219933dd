-- ===== src/Quota/Flow.antt =====
-- What OperateLogMiddleware does with each request.
use middle.Prelude.{
  ℕ, Bool, true, false, ◌||◌, not, List, [], ◌∷◌, Option, none, some, ◌≡◌, ◌⊎◌, inl, inr, refl,
  arith, Bool-cases,
}
use middle.Prelude.Int.{ℤ}
use middle.Text.{Text}
use middle.Http.{Context}
use middle.Oplog.{skip_operate_path}
use middle.Body.{Stream, read_request_body}
use middle.Config.{Config}
use middle.Quota.{
  Service, Endpoint, allow_quota_or_abort, Event, aborted, handled, saved, reads_only, writes,
  after_quota, operate_log_middleware,
}

-- What the log does with a request, by its method and path and the quota.
pub data IsLogged (has_db : Bool) (quota : Option Text) (c : Context) (body : Option Stream)
    (read : Option (List ℕ) × Option Stream) : List Event → Type 0 where
  unlogged :
      (reads_only c.method ≡ true)
        ⊎ ((has_db ≡ false) ⊎ (skip_operate_path c.full_path c.url_path ≡ true))
      → IsLogged has_db quota c body read (handled body ∷ [])
  over_plan :
      {message : Text}
      → reads_only c.method ≡ false
      → quota ≡ some message
      → IsLogged has_db quota c body read (aborted 402 ∷ [])
  unknown_method :
      reads_only c.method ≡ false
      → writes c.method ≡ false
      → quota ≡ none
      → IsLogged has_db quota c body read (handled (read.1) ∷ [])
  logged :
      writes c.method ≡ true
      → has_db ≡ true
      → skip_operate_path c.full_path c.url_path ≡ false
      → quota ≡ none
      → IsLogged has_db quota c body read (handled (read.1) ∷ saved (read.0) ∷ [])

after_quota-IsLogged :
    (has_db : Bool) (quota q : Option Text) (c : Context) (body : Option Stream)
    (read : Option (List ℕ) × Option Stream)
    → reads_only c.method ≡ false
    → has_db ≡ true
    → skip_operate_path c.full_path c.url_path ≡ false
    → quota ≡ q
    → IsLogged has_db quota c body read (after_quota q c.method read)
after_quota-IsLogged has_db quota (some message) c body read r d w e = over_plan r e
after_quota-IsLogged has_db quota none c body (payload, left) r d w e =
    elim (Bool-cases (writes c.method)) [
      | inl wr ↦ rw wr (logged wr d w e)
      | inr other ↦ rw other (unknown_method r other e)
    ]

-- With a database, `saveOperationLog` is entered for every POST, PUT, PATCH and DELETE on a watched
-- path that the quota admits, with the captured payload and after the handlers, and for no other
-- request; without one it is never entered. The handlers run once, or not at all because
-- `allowQuotaOrAbort` refuses the request with 402.
pub operate_log_middleware-IsLogged :
    (net : Service) (e : Endpoint) (cfg : Config) (has_db : Bool) (c : Context)
    (content_type : Text) (len : ℤ) (body : Option Stream)
    → IsLogged has_db
        (allow_quota_or_abort net e cfg c len)
        c
        body
        (read_request_body content_type len body)
        (operate_log_middleware net e cfg has_db c content_type len body)
unfolding operate_log_middleware
operate_log_middleware-IsLogged net e cfg has_db c ct len body =
    elim (Bool-cases (reads_only c.method)) [
      | inl r ↦ rw r (unlogged (inl r))
      | inr r ↦ elim (Bool-cases (not has_db || skip_operate_path c.full_path c.url_path)) [
        | inl skips ↦ rw (r, skips) (unlogged (inr (ground arith)))
        | inr watched ↦
            rw (r, watched)
              (after_quota-IsLogged has_db (allow_quota_or_abort net e cfg c len) _ c body
                (read_request_body ct len body) r (ground arith) (ground arith) refl)
      ]
    ]
