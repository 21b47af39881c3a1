-- ===== src/Proxy/Tests.antt =====
-- A request for a cached object (proxy/handler.go).
use varc.Base.{ℕ, ◌+◌, true, some}
use varc.Proxy.{get, opened, Handler, serve}
use varc.Proxy.Serving.{Serves, serve-Serves}

abbrev handler : Handler ℕ ℕ
handler = record {
  has_cache = true;
  has_source = true;
  key = some 1;
  cache_key = λ k. some k;
  source_open = λ k. opened (k + 10);
  cache_open = λ k o. opened (o + 100);
}

serve-Serves_example : Serves handler get (serve handler get)
serve-Serves_example = serve-Serves handler get
