-- ===== src/Http/Laws.antt =====
-- Headers under `Set` and `Del`.
use middle.Prelude.{[], ◌≡◌, arith, eqb, if◌then◌else◌}
use middle.Text.{Text}
use middle.Http.{Header, Headers, rank, get, set, del}

pub get-set :
    (hs : Headers) (h k : Header) (v : Text)
    → get (set hs h v) k ≡ (if eqb (rank k) (rank h) then v else get hs k)
get-set hs h k v = ground arith

pub get-del :
    (hs : Headers) (h k : Header)
    → get (del hs h) k ≡ (if eqb (rank k) (rank h) then [] else get hs k)
get-del hs h k = ground arith
