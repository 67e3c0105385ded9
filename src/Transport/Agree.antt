-- ===== src/Transport/Agree.antt =====
-- The listeners of api/http.go, api/amqp.go and api/ws.go side by side.
use pmb.Base.Go.{Go}
