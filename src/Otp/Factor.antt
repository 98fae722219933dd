-- ===== src/Otp/Factor.antt =====
-- The second factor with the secrets of the server.
use middle.Text.{Text}
use middle.Config.{Config}
