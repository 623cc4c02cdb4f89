-- ===== src/Mount/Permits.antt =====
-- Every gated handler of internal/mount/janus_node.go does what the policy permits, and no more.
use janusfs.Engine.Trusted.{Trusted}
use janusfs.Mount.{Mount}
use janusfs.Mount.Reply.{Reply}
