-- ===== src/Proxy/Pinned.antt =====
-- internal/httpapi/server.go, `marshalProxy` and `forwardWithFallback`: how a request is forwarded
-- whose session is held to its node.
use llama_wrangler.Session
use llama_wrangler.Proxy.Meta.{Meta}
