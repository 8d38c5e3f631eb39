-- ===== src/WebProxy.antt =====
-- flmodules/src/web_proxy: web requests that another node makes.
pub mod Core
pub mod Messages
pub mod Client
