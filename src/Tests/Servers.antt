-- ===== src/Tests/Servers.antt =====
-- Two servers on one port, of which one is stopped.
use quackapi.Base.{true, []}
use quackapi.Text.{codes}
use quackapi.Registry.Servers.{
  Server, ServerState, start_server, stop_server, Reaches, here, then_step, start, stop,
}
use quackapi.Registry.Servers.Laws.{IsValid, no_servers, Reaches-IsValid}

abbrev local : Server
local = record {
  host = codes "127.0.0.1";
  port = 8080;
  http_client_active = [];
  http_client_reason = [];
}

abbrev anywhere : Server
anywhere = record local { host = codes "0.0.0.0" }

abbrev one : ServerState
one = (start_server local true no_servers).1

abbrev two : ServerState
two = (start_server anywhere true one).1

two_stopped : Reaches no_servers (stop_server 8080 two).1
two_stopped =
    then_step (then_step (then_step here (start local true no_servers)) (start anywhere true one))
      (stop 8080 two)

Reaches-IsValid_example : IsValid (stop_server 8080 two).1
Reaches-IsValid_example = Reaches-IsValid (stop_server 8080 two).1 two_stopped
