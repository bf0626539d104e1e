-- ===== src/Http.antt =====
-- packages/http/src: the router and the chain of middlewares.
pub mod Paths
pub mod Trie
pub mod Router
pub mod Resolver
pub mod Middleware
