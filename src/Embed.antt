-- ===== src/Embed.antt =====
-- The embedding layer (embed/*.go): the cache of embeddings. Its clients of HTTP services and of
-- local models are not modelled.
pub mod Cache
