-- ===== src/Examples/Dns.antt =====
-- Lookups through the cache of pkg/dnsx/resolver.go, with names in two spellings and a block list.
use mailscript.Base.{ℕ, ◌*◌, ◌/◌, ◌≡◌, refl, true, none, some, List, [], ◌∷◌}
use mailscript.Text.{codes}
use mailscript.Dns.Cache.{Cache, new_cache, Config, Backend}
use mailscript.Dns.Cache.Refinement.{IsCaseless}
use mailscript.Dns.Cache.Refinement.Sessions.{
  Call, ask_host, ask_mx, ask_ptr, ask_rbl, ask_rbls, Answer, run, AreDirect, run-direct,
}

-- Servers that give every name the same records.
abbrev servers : Backend
servers = record {
  query_host = λ _. some (codes "127.0.0.4" ∷ codes "127.0.0.2" ∷ []);
  query_mx = λ _. none;
  query_txt = λ _. some (codes "listed" ∷ []);
  query_ptr = λ _. some (codes "host.example.org." ∷ []);
}

abbrev config : Config
config = record { enabled = true; ttl = 300; rbls = codes "zen.example" ∷ codes "bl.example." ∷ [] }

-- A clock that stands still for three readings at a time.
abbrev clock : ℕ → ℕ
clock n = n / 3 * 200

abbrev calls : List Call
calls =
    ask_host (codes "MX.example.org")
    ∷ ask_host (codes "mx.example.org")
    ∷ ask_mx (codes "example.org")
    ∷ ask_ptr (codes "192.0.2.1")
    ∷ ask_rbl (codes "192.0.2.1") (codes "zen.example")
    ∷ ask_rbl (codes "192.0.2.1") (codes "zen.example.")
    ∷ ask_rbls (codes "192.0.2.1")
    ∷ []

servers-IsCaseless : IsCaseless servers
servers-IsCaseless = record { host = λ _. refl; mx = λ _. refl; txt = λ _. refl }

run-direct_example :
    (told : List Answer) × (c : Cache) × (run servers config clock calls new_cache ≡ some (told, c))
    × AreDirect servers config calls told
run-direct_example = run-direct servers config clock servers-IsCaseless calls
