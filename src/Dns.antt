-- ===== src/Dns.antt =====
-- pkg/dnsx/resolver.go: the cache of DNS answers and the queries of block lists. What a server answers
-- is a parameter.
pub mod Reverse
pub mod Cache
