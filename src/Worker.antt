-- ===== src/Worker.antt =====
-- worker/src/index.js: the control plane, which shares swarm health and routing nodes between clients.
pub mod Input
pub mod Health
pub mod Post
pub mod Pool
