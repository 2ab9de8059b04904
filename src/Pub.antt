-- ===== src/Pub.antt =====
-- rpki/pubd.py and rpki/pubdb/models.py: the publication server.
pub mod Store
pub mod Handler
mod Examples
