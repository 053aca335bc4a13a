-- ===== src/Server/HostResources/Installed.antt =====
-- internal/server/util.go: what is installed where prepareHostResources succeeds.
use ascend_device_plugin.Base.{String}
