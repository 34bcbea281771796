-- ===== src/Server/Health.antt =====
-- internal/server/server.go: the checks of the server, and the id of a request.
use bytefetch.Prelude.{Text, codes, is_empty, Bool, if◌then◌else◌}
use bytefetch.Exec.{ping}
use bytefetch.Server.Http.{respond, message, Handler, reply, after_call}

-- The identity that the middleware gives to a request: the one that it came with, or a new one.
unfoldable pub request_id : Text → Text → Text
request_id given fresh = if is_empty given then fresh else given

-- `GET /healthz`
unfoldable pub handle_healthz : Handler
handle_healthz = reply (respond 200 (message (codes "ok")))

-- `GET /readyz`, with what `Ready` of the renderer says.
unfoldable pub handle_readyz : Bool → Handler
handle_readyz renderer_ready =
    after_call ping (λ e. respond 503 (message (codes "db not ready")))
      (λ u. reply (
        if renderer_ready
        then respond 200 (message (codes "ready"))
        else respond 503 (message (codes "browser not ready"))))
