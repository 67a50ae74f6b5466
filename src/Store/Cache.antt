-- ===== src/Store/Cache.antt =====
-- Cached values with an expiry of their own: `kv_cache_get` and `kv_cache_set` of
-- oidc-gateway/src/store.rs, for JSON values.
use jetauth.Prelude.{
  Text, str, ltb, Result, ok, err, ℕ, Option, none, some, ◌+◌, ◌++◌, if◌then◌else◌,
}
use jetauth.Kv.{Kv, put, delete}
use jetauth.Action.{Action, pure, ignore, ◌>>◌}
use jetauth.Json.{Json}
use jetauth.Store.Wire.{Wire}
use jetauth.Store.Access.{kv_write}
use jetauth.Store.Refresh.{kv_get_raw}

abbrev pub cache : Text
cache = str "cache"

module _ {Payload : Type 0} (kv : Kv Payload) (wire : Wire Payload) (now : ℕ) where
  abbrev pub unless_over : Text → Result (Json × ℕ) → Action kv.State (Option Json)
  unless_over key (err e) s = (err (str "cache deserialize: " ++ e), s)
  unless_over key (ok (value, expires_at)) s =
      if ltb now expires_at
      then (ok (some value), s)
      else (ignore (kv_write kv delete cache key) >> pure none) s

  abbrev pub cached_or : Text → Result (Option Payload) → Action kv.State (Option Json)
  cached_or key (err e) s = (err e, s)
  cached_or key (ok none) s = (ok none, s)
  cached_or key (ok (some p)) s = unless_over key (wire.cached.decode p) s

  -- An entry that is over is deleted.
  unfoldable pub kv_cache_get : Text → Action kv.State (Option Json)
  unfolding kv_get_raw
  kv_cache_get key s = cached_or key (kv_get_raw kv wire cache key s) s

  unfoldable pub kv_cache_set : Text → Json → (ttl_secs : ℕ) → Action kv.State (Unit {0})
  kv_cache_set key value ttl_secs =
      kv_write kv (put (wire.cached.encode (value, now + ttl_secs)) (some ttl_secs)) cache key
