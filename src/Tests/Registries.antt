-- ===== src/Tests/Registries.antt =====
-- The theorem on `Redis::get_connection`, when no connection has been made.
use libredis.Base.{false, [], arith}
use libredis.Base.Int.{pos}
use libredis.Php.Connections.{Registry, Memory}
use libredis.Php.Connections.Table.{IsTable, Keeps, get_connection-Keeps}
use libredis.Tests.{codes, fresh}

abbrev no_connections : Registry
no_connections = record { table = []; connections = [] }

abbrev clean : Memory
clean = record { parser = fresh; sockfd = pos 0; addrinfo = false }

no_connections-IsTable : IsTable no_connections
no_connections-IsTable = record {
  made = λ a h e. let no : ⊥ = ground (arith, e) in absurd no;
  in_range = λ a h e. ground (arith, e);
  one_address = λ a b h e e'. ground (arith, e);
}

get_connection-Keeps_example : Keeps clean (codes "localhost:6379") no_connections
get_connection-Keeps_example =
    get_connection-Keeps clean (codes "localhost:6379") no_connections no_connections-IsTable
