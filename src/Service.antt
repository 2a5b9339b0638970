-- ===== src/Service.antt =====
-- src/app/app_service: the commands of the hub and the service that carries them out.
pub mod Commands
pub mod Execute
pub mod Laws
