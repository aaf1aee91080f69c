-- ===== src/Tests/Lists.antt =====
-- The theorem on the list of servers of libredis/ketama.c, at the second server, which doubles it.
use libredis.Base.{none, some, [], ◌∷◌, arith}
use libredis.Base.Int.{pos}
use libredis.Ketama.{Ketama, Ketama_add_server}
use libredis.Ketama.Servers.{IsServerList, Registered, add_server-Registered}
use libredis.Tests.{codes}

abbrev one_server : Ketama
one_server = record {
  numpoints = 0;
  maxservers = 1;
  memory = 300;
  continuum = none;
  servers = some (record { addr = codes "127.0.0.1:6379"; memory = 300 } ∷ []);
}

one_server-IsServerList : IsServerList one_server
one_server-IsServerList = record { fits = omega arith; has_room = λ l e. omega arith }

add_server-Registered_example :
    Registered one_server
      (codes "127.0.0.1")
      (pos 6380)
      300
      (Ketama_add_server one_server (codes "127.0.0.1") (pos 6380) 300)
add_server-Registered_example =
    add_server-Registered one_server (codes "127.0.0.1") (pos 6380) 300 one_server-IsServerList
      (omega arith)
