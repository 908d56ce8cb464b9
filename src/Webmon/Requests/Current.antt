-- ===== src/Webmon/Requests/Current.antt =====
-- Webmon/Requests: the request for the present tree of a store.
use llprof.Base.{zero, suc, sym, none, Map, if◌then◌else◌, ◌>>=◌, Bool-cases, inl, inr, true}
